-- ===== src/Checks/Host.antt =====
-- What the checks of internal/checks/checks.go use of the machine, over a world `W`.
use rpi_procmon.Base.{ℕ, String, Bool, ◌⊎◌, Option, List, ℤ}
use rpi_procmon.Base.Text.{trim_space, is_empty}
use rpi_procmon.Base.Dict.{Dict}
use rpi_procmon.State.{Observation}
use rpi_procmon.Engine.Env.{TimePackage}
use rpi_procmon.Command.Runner.{Outcome, CommandError}
use rpi_procmon.Checks.Patterns.{Regexp}
use rpi_procmon.Base.{if◌then◌else◌}

-- `float64` by its bit pattern: zero is 0. `fixed` is the verb `%.nf`.
pub record Floats : Type 0 where
  pub parse : String → Option ℕ
  pub greater : ℕ → ℕ → Bool
  pub is_zero : ℕ → Bool
  pub times : ℕ → ℕ → ℕ
  pub over : ℕ → ℕ → ℕ
  pub minus : ℕ → ℕ → ℕ
  pub of_int : ℤ → ℕ
  pub fixed : ℕ → ℕ → String

-- `healthResponse`; a pointer is an option.
pub record HealthResponse : Type 0 where
  pub ok : Option Bool
  pub serial_connected : Option Bool
  pub error : String

-- A response with its body read; a body that ends early counts as far as it came.
pub record HttpResponse : Type 0 where
  pub status : ℤ
  pub body : String
  pub body_len : ℕ

-- The standard library and the system: an operation that can fail returns the text of its error on
-- the left, or `none` where the caller does not read it. `access` is `unix.Access` for reading and
-- writing, `read_dir` gives names and whether they are directories.
pub record Host (W : Type 0) : Type 0 where
  pub time : TimePackage
  pub parse_nano : String → Option ℤ
  pub format_nano : ℤ → String
  pub regexp : Regexp
  pub floats : Floats
  pub quote : String → String
  pub to_lower : String → String
  pub parse_health : String → String ⊎ HealthResponse
  pub num_cpu : ℤ
  pub now : W → ℤ × W
  pub run : String → W → (Outcome × Option CommandError) × W
  pub get : String → ℤ → W → (String ⊎ HttpResponse) × W
  pub read_file : String → W → Option String × W
  pub stat : String → W → Option String × W
  pub access : String → W → Option String × W
  pub eval_symlinks : String → W → Option String × W
  pub read_dir : String → W → Option (List (String × Bool)) × W
  pub read_link : String → W → Option String × W

-- The three results of a handler; `nil` observations are empty ones.
pub record Report : Type 0 where
  pub success : Bool
  pub message : String
  pub observations : Dict Observation

abbrev pub passed : Dict Observation → Report
passed observations = record { success = Bool.true; message = ""; observations = observations }

abbrev pub failing : String → Dict Observation → Report
failing message observations = record {
  success = Bool.false;
  message = message;
  observations = observations;
}

-- `normalizedTransport`.
unfoldable pub normalized_transport : String → String
normalized_transport value =
    let trimmed = trim_space value in if is_empty trimmed then "local" else trimmed

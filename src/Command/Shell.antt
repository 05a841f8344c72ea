-- ===== src/Command/Shell.antt =====
-- internal/command/runner.go: `shellQuote`.
pub mod Word
use Prim.Native.Char.{code}
use Prim.Native.String.{String, [], ◌∷◌, ◌++◌}
use rpi_procmon.Base.{eqb, if◌then◌else◌}

-- `strings.ReplaceAll(value, "'", "'\"'\"'")`.
unfoldable pub escaped : String → String
escaped [] = []
escaped (c ∷ s) = let rest = escaped s in if eqb (code c) b'\'' then "'\"'\"'" ++ rest else c ∷ rest

unfoldable pub shell_quote : String → String
unfolding escaped
shell_quote value = "'" ++ escaped value ++ "'"

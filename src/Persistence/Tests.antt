-- ===== src/Persistence/Tests.antt =====
-- Saves and loads on a disk that is a function from names to contents, with one temporary name.
use rpi_procmon.Base.{
  ◌≡◌, ◌≢◌, refl, sym, ap, ◌∙◌, String, Bool, ◌⊎◌, inl, inr, Option, none, some, [], ◌∷◌, map, pos,
  ◌==◌, eq_iff, eq_refl, eq_false, Option-cases, if◌then◌else◌,
}
use rpi_procmon.Base.Text.{trim_space, join}
use rpi_procmon.Base.Text.Split.{split_on}
use rpi_procmon.Events.{Event, History, trim_to_limit}
use rpi_procmon.Persistence.{Disk, ReadError, not_exist, io_error, save, load}
use rpi_procmon.Persistence.Atomic.{IsDisk, IsSaved, save-IsSaved}
use rpi_procmon.Persistence.Corrupt.{IsReadable, IsThere, IsRead, load-preserves, load-save}
use rpi_procmon.Persistence.Stores.{Json, load_events, save_events}
use rpi_procmon.Persistence.Stores.Trimmed.{IsBack, load_events-save_events}

abbrev pub World : Type 0
World = String → Option String

abbrev put : String → Option String → World → World
put key value w p = if key == p then value else w p

abbrev found : Option String → ReadError ⊎ String
found none = inl not_exist
found (some text) = inr text

abbrev renamed : String → String → Option String → World → Option String × World
renamed from to none w = (some "no such file", w)
renamed from to (some text) w = (none, put to (some text) (put from none w))

abbrev pub disk : Disk World
disk = record {
  dir = λ path. "/d";
  read_file = λ path w. (found (w path), w);
  mkdir_all = λ d w. (none, w);
  create_temp = λ d w. (inr "/d/.tmp", put "/d/.tmp" (some "") w);
  chmod = λ t w. (none, w);
  write = λ t text w. (none, put t (some text) w);
  sync = λ t w. (none, w);
  close = λ t w. (none, w);
  rename = λ from to w. renamed from to (w from) w;
  remove = λ t w. (none, put t none w);
  open_dir = λ d w. (none, w);
  sync_dir = λ d w. (none, w);
  stamp = λ w. ("1", w);
}

abbrev pub content : World → String → Option String
content w p = w p

abbrev pub is_temp : String → Bool
is_temp p = "/d/.tmp" == p

put-other : (key p : String) (value : Option String) (w : World) → p ≢ key → put key value w p ≡ w p
put-other key p value w other = rw (eq_false key p (λ e. other (sym e))) refl

put_self : (key : String) (value : Option String) (w : World) → put key value w key ≡ value
put_self key value w = rw (eq_refl key) refl

name_of : String ⊎ String → String
name_of (inl e) = e
name_of (inr name) = name

text_found : ReadError ⊎ String → Option String
text_found (inl e) = none
text_found (inr text) = some text

pub laws : IsDisk disk content is_temp
unfolding name_of
laws = record {
  mkdir_all = λ d w p. refl;
  create_temp_name = λ d name w made. (eq_iff "/d/.tmp" name).1 (ap name_of made);
  create_temp = λ d w p real. rw real refl;
  chmod = λ t w p. refl;
  write_other = λ t c w p other. put-other t p (some c) w other;
  write = λ t c w ok. put_self t (some c) w;
  sync = λ t w p. refl;
  close = λ t w p. refl;
  rename_fails = λ from to e w p failed. elim (Option-cases (w from)) [
    | inl missing ↦ rw missing refl
    | inr (text, there) ↦ absurd (cc (rw there at failed))
  ];
  rename = λ from to w ok. elim (Option-cases (w from)) [
    | inl missing ↦ absurd (cc (rw missing at ok))
    | inr (text, there) ↦ rw there (put_self to (some text) (put from none w))
  ];
  rename_other = λ from to w p other other'. elim (Option-cases (w from)) [
    | inl missing ↦ rw missing refl
    | inr (text, there) ↦
        rw there
          (put-other to p (some text) (put from none w) other' ∙ put-other from p none w other)
  ];
  remove = λ t w p other. put-other t p none w other;
  open_dir = λ d w p. refl;
  sync_dir = λ d w p. refl;
}

reads : IsReadable disk content
unfolding text_found
reads = record {
  stamp = λ w p. refl;
  read_keeps = λ f w p. refl;
  read = λ f text w ok. elim (Option-cases (w f)) [
    | inl missing ↦ absurd (cc (rw missing at ok))
    | inr (t, there) ↦ there ∙ ap (λ (r : ReadError ⊎ String). text_found r) (rw there at ok)
  ];
  read_none = λ f w missing. elim (Option-cases (w f)) [
    | inl none' ↦ none'
    | inr (t, there) ↦ absurd (cc (rw there at missing))
  ];
}

-- One file, with an old text.
abbrev pub old_file : World
old_file = put "/d/state.json" (some "old") (λ p. none)

save-IsSaved_example :
    IsSaved content is_temp "/d/state.json" "new" old_file
      (save disk "/d/state.json" "new" old_file)
save-IsSaved_example = save-IsSaved disk content is_temp laws "/d/state.json" "new" old_file refl

abbrev decode : String → String ⊎ String
decode text = if text == "old" then inl "corrupt" else inr text

load-preserves_example :
    IsThere content "" decode "/d/state.json" "old" disk
      (load disk "" decode "/d/state.json" old_file).1
    × IsRead content "" decode "/d/state.json" "old" disk
        (load disk "" decode "/d/state.json" old_file).0
load-preserves_example =
    load-preserves disk content is_temp laws reads "" decode "/d/state.json" "old" old_file refl

save_succeeds : (save disk "/d/state.json" "new" old_file).0 ≡ none
unfolding save
save_succeeds = refl

load-save_example :
    ((load disk "" decode "/d/state.json" (save disk "/d/state.json" "new" old_file).1).0
      ≡ inr "new")
    ⊎ ((e : String) × (load disk "" decode "/d/state.json"
            (save disk "/d/state.json" "new" old_file).1).0
          ≡ inl e
        × (disk.read_file "/d/state.json" (save disk "/d/state.json" "new" old_file).1).0
          ≡ inl (io_error e))
unfolding trim_space
load-save_example =
    load-save disk content is_temp laws reads "" decode "/d/state.json" "new" "new" old_file refl
      refl save_succeeds

abbrev pub json : Json
json = record {
  encode_state = λ st. inr "state";
  decode_state = λ text. inl "no state";
  encode_history = λ h. inr "events";
  decode_history = λ text. inr (record { version = pos 1; events = [] });
}

-- Events by their ids: the JSON of a history is the lines of the ids of its events.
abbrev named : String → Event
named id = record {
  id = id;
  timestamp = "";
  monitor_id = "";
  monitor_name = "";
  monitor_type = "";
  event_type = "";
  status_before = "";
  status_after = "";
  reason = "";
  consecutive_failures = pos 0;
  recovery_count = pos 0;
  check_results = [];
  recovery_results = [];
}

abbrev event_id : Event → String
event_id event = event.id

abbrev json_lines : Json
json_lines = record json {
  encode_history = λ h. inr (join "\n" (map event_id h.events));
  decode_history =
      λ text. inr (record { version = pos 1; events = map named (split_on b'\n' text) });
}

abbrev four_events : History
four_events = record {
  version = pos 1;
  events = named "a" ∷ named "b" ∷ named "c" ∷ named "d" ∷ [];
}

events_saved : (save_events disk json_lines "/d/events.json" (pos 3) four_events old_file).0 ≡ none
unfolding save_events save trim_to_limit join
events_saved = refl

load_events-save_events_example :
    IsBack
      (pos 3)
      four_events.events
      (load_events disk json_lines "/d/events.json"
        (pos 3)
        (save_events disk json_lines "/d/events.json" (pos 3) four_events old_file).1).0
      (disk.read_file "/d/events.json"
        (save_events disk json_lines "/d/events.json" (pos 3) four_events old_file).1).0
unfolding trim_space trim_to_limit join split_on
load_events-save_events_example =
    load_events-save_events disk content is_temp laws reads json_lines "/d/events.json" "b\nc\nd"
      (pos 3) four_events old_file refl refl refl events_saved

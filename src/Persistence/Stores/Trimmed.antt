-- ===== src/Persistence/Stores/Trimmed.antt =====
-- internal/events/store.go: a saved history is loaded as it was trimmed.
use rpi_procmon.Base.{
  ◌≡◌, ◌≢◌, refl, ap, ◌∙◌, ◌-◌, String, Bool, true, false, ◌⊎◌, inl, inr, Option, none, List, ℤ,
  pos, negsuc, leb_ℤ, ltb_ℤ, length, length-drop, ◌++◌, [], ◌∷◌, ℕ, zero, suc, ◌≤◌, take, drop,
  pos_part, ◌||◌, Bool-cases, arith,
}
use rpi_procmon.Events.{Event, History, trim_to_limit}
use rpi_procmon.Persistence.{Disk, ReadError, io_error, decoded, save}
use rpi_procmon.Persistence.Atomic.{IsDisk}
use rpi_procmon.Persistence.Corrupt.{IsReadable, load-save}
use rpi_procmon.Persistence.Stores.{
  Json, no_history, finished_history, trimmed_history, load_events, save_events, write_text,
}

trim_to_limit_short :
    (es : List Event) (limit : ℤ)
    → leb_ℤ limit (pos 0) || leb_ℤ (pos (length es)) limit ≡ true
    → trim_to_limit es limit ≡ es
unfolding trim_to_limit
trim_to_limit_short es limit h = rw h refl

-- What is left after a trimming needs no other.
trim_to_limit-fits :
    (es : List Event) (limit : ℤ)
    → leb_ℤ limit (pos 0) || leb_ℤ (pos (length (trim_to_limit es limit))) limit ≡ true
unfolding trim_to_limit
trim_to_limit-fits es (negsuc n) = ground arith
trim_to_limit-fits es (pos n) =
    elim (Bool-cases (leb_ℤ (pos n) (pos 0) || leb_ℤ (pos (length es)) (pos n))) [
      | inl short ↦ rw short short
      | inr long ↦ rw (long, length-drop (length es - n) es) (ground arith)
    ]

pub trim_to_limit_idem :
    (es : List Event) (limit : ℤ)
    → trim_to_limit (trim_to_limit es limit) limit ≡ trim_to_limit es limit
trim_to_limit_idem es limit =
    trim_to_limit_short (trim_to_limit es limit) limit (trim_to_limit-fits es limit)

-- The newest events that a limit allows: `kept` ends the events, and it is all of them, if there is
-- no limit or they fit, or as many as the limit says.
pub record IsNewest (limit : ℤ) (events kept : List Event) : Type 0 where
  pub older : List Event
  pub split : events ≡ older ++ kept
  pub enough :
      ((older ≡ []) × ((leb_ℤ limit (pos 0) || leb_ℤ (pos (length events)) limit) ≡ true))
      ⊎ ((pos (length kept) ≡ limit) × (ltb_ℤ limit (pos (length events)) ≡ true))

take-drop : (n : ℕ) (es : List Event) → es ≡ take n es ++ drop n es
take-drop zero es = refl
take-drop (suc n) [] = refl
take-drop (suc n) (e ∷ es) = ap (λ (rest : List Event). e ∷ rest) (take-drop n es)

trim_to_limit-IsNewest :
    (events : List Event) (limit : ℤ) → IsNewest limit events (trim_to_limit events limit)
unfolding trim_to_limit
trim_to_limit-IsNewest events limit =
    elim (Bool-cases (leb_ℤ limit (pos 0) || leb_ℤ (pos (length events)) limit)) [
      | inl short ↦ rw short (record { older = []; split = refl; enough = inl (refl, short) })
      | inr long ↦ rw long (record {
        older = take (length events - pos_part limit) events;
        split = take-drop (length events - pos_part limit) events;
        enough = inr (length_kept limit long, over limit long);
      })
    ]
  where
    over :
        (l : ℤ)
        → leb_ℤ l (pos 0) || leb_ℤ (pos (length events)) l ≡ false
        → ltb_ℤ l (pos (length events)) ≡ true
    over (pos n) h = ground arith
    over (negsuc n) h = ground arith

    length_kept :
        (l : ℤ)
        → leb_ℤ l (pos 0) || leb_ℤ (pos (length events)) l ≡ false
        → pos (length (drop (length events - pos_part l) events)) ≡ l
    length_kept (pos n) h =
        ap pos (length-drop (length events - n) events ∙ omega (arith, some_over n h))
      where
        some_over :
            (n : ℕ)
            → leb_ℤ (pos n) (pos 0) || leb_ℤ (pos (length events)) (pos n) ≡ false
            → n ≤ length events
        some_over n h = ground arith
    length_kept (negsuc n) h = absurd (below n h)
      where
        below : (n : ℕ) → leb_ℤ (negsuc n) (pos 0) || leb_ℤ (pos (length events)) (negsuc n) ≢ false
        below n h = ground arith

save_events-text :
    {W : Type 0} (disk : Disk W) (json : Json) (path text : String) (max_entries : ℤ) (h : History)
    (w : W)
    → json.encode_history (trimmed_history disk json max_entries h) ≡ inr text
    → save_events disk json path max_entries h w ≡ save disk path text w
unfolding save_events
save_events-text disk json path text max_entries h w encoded =
    ap (λ (x : String ⊎ String). write_text disk json path x w) encoded

load_events-trimmed :
    {W : Type 0} (disk : Disk W) (content : W → String → Option String) (is_temp : String → Bool)
    → IsDisk disk content is_temp
    → IsReadable disk content
    → (json : Json) (path text : String) (max_entries : ℤ) (h : History) (w : W)
    → is_temp path ≡ false
    → json.encode_history (trimmed_history disk json max_entries h) ≡ inr text
    → decoded disk no_history json.decode_history text
      ≡ inr (trimmed_history disk json max_entries h)
    → (save_events disk json path max_entries h w).0 ≡ none
    → ((load_events disk json path max_entries (save_events disk json path max_entries h w).1).0
        ≡ inr (trimmed_history disk json max_entries h))
      ⊎ ((e : String) × (load_events disk json path max_entries
              (save_events disk json path max_entries h w).1).0
            ≡ inl e
          × (disk.read_file path (save_events disk json path max_entries h w).1).0
            ≡ inl (io_error e))
unfolding load_events
load_events-trimmed disk content is_temp laws reads json path text max_entries h w lasting encoded
      good saved =
    let trimmed = trimmed_history disk json max_entries h in
    let same : save_events disk json path max_entries h w ≡ save disk path text w =
      save_events-text disk json path text max_entries h w encoded in
    let finish = finished_history disk json max_entries in
    rw same
      (elim (load-save disk content is_temp laws reads no_history json.decode_history path text
        trimmed w lasting good (rw same at saved)) [
          | inl back ↦ inl (
              ap finish back
              ∙ ap (λ (es : List Event). inr (record { version = trimmed.version; events = es }))
                  (trim_to_limit_idem h.events max_entries))
          | inr (e, failed, read) ↦ inr (e, ap finish failed, read)
        ])

-- What a load gives that finds the history as it was saved: the history of the newest events that
-- the limit allows, with the version of the schema, or the error of reading the file.
abbrev pub IsBack : ℤ → List Event → (String ⊎ History) → ReadError ⊎ String → Type 0
IsBack limit events loaded read =
    ((kept : List Event) × IsNewest limit events kept
      × (loaded ≡ inr (record { version = pos 1; events = kept })))
    ⊎ ((e : String) × (loaded ≡ inl e) × (read ≡ inl (io_error e)))

-- After a save of the history that reports success, a load gives the history of the newest events,
-- as many as the limit allows, with the schema's version 1, or the error of reading the file, if the
-- JSON of the trimmed history decodes to what was encoded.
pub load_events-save_events :
    {W : Type 0} (disk : Disk W) (content : W → String → Option String) (is_temp : String → Bool)
    → IsDisk disk content is_temp
    → IsReadable disk content
    → (json : Json) (path text : String) (max_entries : ℤ) (h : History) (w : W)
    → is_temp path ≡ false
    → json.encode_history (trimmed_history disk json max_entries h) ≡ inr text
    → decoded disk no_history json.decode_history text
      ≡ inr (trimmed_history disk json max_entries h)
    → (save_events disk json path max_entries h w).0 ≡ none
    → IsBack max_entries h.events
        (load_events disk json path max_entries (save_events disk json path max_entries h w).1).0
        (disk.read_file path (save_events disk json path max_entries h w).1).0
load_events-save_events disk content is_temp laws reads json path text max_entries h w lasting
      encoded good saved =
    elim (load_events-trimmed disk content is_temp laws reads json path text max_entries h w lasting
      encoded good saved) [
        | inl back ↦
            inl (
              trim_to_limit h.events max_entries,
              trim_to_limit-IsNewest h.events max_entries,
              back,
            )
        | inr failed ↦ inr failed
      ]

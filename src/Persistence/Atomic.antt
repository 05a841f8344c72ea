-- ===== src/Persistence/Atomic.antt =====
-- internal/persistence/json.go: a save replaces the file's content or leaves it as it was.
use rpi_procmon.Base.{
  String, Bool, true, false, ◌≡◌, ◌≢◌, refl, ◌∙◌, ◌⊎◌, inl, inr, Option, none, some, ap,
  Option-cases,
}
use rpi_procmon.Persistence.{Disk, ◌then_do◌, sync_dir, store, stored, cleaned, save}

-- How the calls change the files. `content` gives what a path holds; `is_temp` tells the names that
-- `os.CreateTemp` makes for the pattern of `Save`. A file's own calls change that file at most, and
-- a rename is all or nothing.
pub record IsDisk {W : Type 0} (disk : Disk W) (content : W → String → Option String)
    (is_temp : String → Bool) : Type 0 where
  pub mkdir_all : (d : String) (w : W) (p : String) → content (disk.mkdir_all d w).1 p ≡ content w p
  pub create_temp_name :
      (d name : String) (w : W) → (disk.create_temp d w).0 ≡ inr name → is_temp name ≡ true
  pub create_temp :
      (d : String) (w : W) (p : String)
      → is_temp p ≡ false
      → content (disk.create_temp d w).1 p ≡ content w p
  pub chmod : (t : String) (w : W) (p : String) → content (disk.chmod t w).1 p ≡ content w p
  pub write_other :
      (t c : String) (w : W) (p : String) → p ≢ t → content (disk.write t c w).1 p ≡ content w p
  pub write :
      (t c : String) (w : W) → (disk.write t c w).0 ≡ none → content (disk.write t c w).1 t ≡ some c
  pub sync : (t : String) (w : W) (p : String) → content (disk.sync t w).1 p ≡ content w p
  pub close : (t : String) (w : W) (p : String) → content (disk.close t w).1 p ≡ content w p
  pub rename_fails :
      (from to e : String) (w : W) (p : String)
      → (disk.rename from to w).0 ≡ some e
      → content (disk.rename from to w).1 p ≡ content w p
  pub rename :
      (from to : String) (w : W)
      → (disk.rename from to w).0 ≡ none
      → content (disk.rename from to w).1 to ≡ content w from
  pub rename_other :
      (from to : String) (w : W) (p : String)
      → p ≢ from
      → p ≢ to
      → content (disk.rename from to w).1 p ≡ content w p
  pub remove :
      (t : String) (w : W) (p : String) → p ≢ t → content (disk.remove t w).1 p ≡ content w p
  pub open_dir : (d : String) (w : W) (p : String) → content (disk.open_dir d w).1 p ≡ content w p
  pub sync_dir : (d : String) (w : W) (p : String) → content (disk.sync_dir d w).1 p ≡ content w p

module _ {W : Type 0} (content : W → String → Option String) (is_temp : String → Bool)
    (path text : String) where
  -- What a save from the world `w` may end in: the path has its old content or the new one, the new
  -- one if there is no error, and no other file is changed but temporary ones.
  pub record IsSaved (w : W) (result : Option String × W) : Type 0 where
    pub whole : (content result.1 path ≡ content w path) ⊎ (content result.1 path ≡ some text)
    pub success : result.0 ≡ none → content result.1 path ≡ some text
    pub others : (p : String) → is_temp p ≡ false → p ≢ path → content result.1 p ≡ content w p

pub sync_dir-keeps :
    {W : Type 0} (disk : Disk W) (content : W → String → Option String) (is_temp : String → Bool)
    → IsDisk disk content is_temp
    → (d : String) (w : W) (p : String) → content (sync_dir disk d w).1 p ≡ content w p
unfolding sync_dir
sync_dir-keeps {W = W} disk content is_temp laws d w p =
    keeps_two (disk.open_dir d w) (laws.open_dir d w p)
  where
    keeps_two :
        (r : Option String × W)
        → content r.1 p ≡ content w p
        → content (r then_do λ w1. disk.sync_dir d w1).1 p ≡ content w p
    keeps_two (some e, w1) h = h
    keeps_two (none, w1) h = laws.sync_dir d w1 p ∙ h

module _ {W : Type 0} (disk : Disk W) (content : W → String → Option String)
    (is_temp : String → Bool) (laws : IsDisk disk content is_temp) (path text : String)
    (lasting : is_temp path ≡ false) (w : W) where
  -- No file has changed but temporary ones.
  abbrev IsSame : W → Type 0
  IsSame w' = (p : String) → is_temp p ≡ false → content w' p ≡ content w p

  abbrev Saved : Option String × W → Type 0
  Saved result = IsSaved content is_temp path text w result

  chain :
      (r : Option String × W) (f : W → Option String × W)
      → IsSame r.1
      → (r.0 ≡ none → Saved (f r.1))
      → Saved (r then_do f)
  chain (some e, w') f same next = record {
    whole = inl (same path lasting);
    success = λ h. absurd (cc h);
    others = λ p real other. same p real;
  }
  chain (none, w') f same next = next refl

  -- The path has the new content, and so it stays.
  abbrev IsNew : W → Type 0
  IsNew w' =
      (content w' path ≡ some text)
      × ((p : String) → is_temp p ≡ false → p ≢ path → content w' p ≡ content w p)

  Saved-new : (result : Option String) (w' : W) → IsNew w' → Saved (result, w')
  Saved-new result w' (new, others) = record {
    whole = inr new;
    success = λ h. new;
    others = others;
  }

  module _ (temp : String) (made : is_temp temp ≡ true) where
    not_temp : (p : String) → is_temp p ≡ false → p ≢ temp
    not_temp p real same = cc (ap is_temp same, real, made)

    renamed :
        (w' : W)
        → IsSame w'
        → content w' temp ≡ some text
        → Saved (disk.rename temp path w' then_do λ w5. sync_dir disk (disk.dir path) w5)
    renamed w' same written = elim (Option-cases (disk.rename temp path w').0) [
      | inr (e, failed) ↦
          chain (disk.rename temp path w') _
            (λ p real. laws.rename_fails temp path e w' p failed ∙ same p real)
            (λ h. absurd (cc (failed, h)))
      | inl ok ↦
          new_then (disk.rename temp path w')
            (
              laws.rename temp path w' ok ∙ written,
              λ p real other.
                  laws.rename_other temp path w' p (not_temp p real) other ∙ same p real,
            )
            ok
    ]
      where
        new_then :
            (r : Option String × W)
            → IsNew r.1
            → r.0 ≡ none
            → Saved (r then_do λ w5. sync_dir disk (disk.dir path) w5)
        new_then (some e, w5) new h = absurd (cc h)
        new_then (none, w5) (new, others) h =
            let kept = sync_dir-keeps disk content is_temp laws (disk.dir path) w5 in
            Saved-new (sync_dir disk (disk.dir path) w5).0 (sync_dir disk (disk.dir path) w5).1
              (kept path ∙ new, λ p real other. kept p ∙ others p real other)

    store-Saved : (w' : W) → IsSame w' → Saved (store disk temp path text w')
    unfolding store
    store-Saved w' same =
        let same1 : IsSame (disk.chmod temp w').1 = λ p real. laws.chmod temp w' p ∙ same p real in
        chain (disk.chmod temp w') _ same1 λ h1.
          let w1 = (disk.chmod temp w').1 in
          let same2 : IsSame (disk.write temp text w1).1 =
            λ p real. laws.write_other temp text w1 p (not_temp p real) ∙ same1 p real in
          chain (disk.write temp text w1) _ same2 λ h2.
            let w2 = (disk.write temp text w1).1 in
            let same3 : IsSame (disk.sync temp w2).1 =
              λ p real. laws.sync temp w2 p ∙ same2 p real in
            chain (disk.sync temp w2) _ same3 λ h3.
              let w3 = (disk.sync temp w2).1 in
              let same4 : IsSame (disk.close temp w3).1 =
                λ p real. laws.close temp w3 p ∙ same3 p real in
              chain (disk.close temp w3) _ same4 λ h4.
                renamed (disk.close temp w3).1 same4
                  (laws.close temp w3 temp ∙ laws.sync temp w2 temp ∙ laws.write temp text w1 h2)

    cleaned-Saved : (r : Option String × W) → Saved r → Saved (cleaned disk temp r)
    cleaned-Saved (result, w') saved =
        let kept : (p : String)
            → is_temp p ≡ false
            → content (disk.remove temp (disk.close temp w').1).1 p ≡ content w' p =
          λ p real.
            laws.remove temp (disk.close temp w').1 p (not_temp p real) ∙ laws.close temp w' p in
        record {
          whole = elim saved.whole [
            | inl old ↦ inl (kept path lasting ∙ old)
            | inr new ↦ inr (kept path lasting ∙ new)
          ];
          success = λ h. kept path lasting ∙ saved.success h;
          others = λ p real other. kept p real ∙ saved.others p real other;
        }

  stored-Saved :
      (r : (String ⊎ String) × W)
      → ((temp : String) → r.0 ≡ inr temp → is_temp temp ≡ true)
      → IsSame r.1
      → Saved (stored disk path text r)
  stored-Saved (inl e, w') named same = record {
    whole = inl (same path lasting);
    success = λ h. absurd (cc h);
    others = λ p real other. same p real;
  }
  stored-Saved (inr temp, w') named same =
      cleaned-Saved temp (named temp refl) (store disk temp path text w')
        (store-Saved temp (named temp refl) w' same)

-- Whatever call of a save fails, and when, the file has its old content or all of the new one, and
-- the new one if the save reports success; no other file is changed, but temporary ones.
pub save-IsSaved :
    {W : Type 0} (disk : Disk W) (content : W → String → Option String) (is_temp : String → Bool)
    → IsDisk disk content is_temp
    → (path text : String) (w : W) → is_temp path ≡ false
    → IsSaved content is_temp path text w (save disk path text w)
unfolding save
save-IsSaved disk content is_temp laws path text w lasting =
    let made = disk.mkdir_all (disk.dir path) w in
    let same1 : (p : String) → is_temp p ≡ false → content made.1 p ≡ content w p =
      λ p real. laws.mkdir_all (disk.dir path) w p in
    chain disk content is_temp laws path text lasting w made _ same1 λ h.
      stored-Saved disk content is_temp laws path text lasting w
        (disk.create_temp (disk.dir path) made.1)
        (λ temp named. laws.create_temp_name (disk.dir path) temp made.1 named)
        (λ p real. laws.create_temp (disk.dir path) made.1 p real ∙ same1 p real)

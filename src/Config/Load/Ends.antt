-- ===== src/Config/Load/Ends.antt =====
-- What `Load` of internal/config/config.go comes to.
use cel_service.Base.Text.{Str, text, is_empty}
use cel_service.Base.{
  ◌≡◌, ◌⊎◌, inl, inr, refl, sym, ap, ◌∙◌, subst, arith, true, false, Option, none, some, ◌++◌,
  Bool-cases, sum_cases,
}
use cel_service.Config.Load.{
  Loaded, Files, Secret, merge_secret, read_secret, decoded, file_read, file_found, file_named,
  load,
}
use cel_service.Config.{Config, Folders, replace_configdir}

module _ {F : Type 0} (os : Folders) (fs : Files F) where
  -- The configuration names no file of secrets, or one that can be read and decoded.
  abbrev HasSecret : Config F → Type 0
  HasSecret c =
      (is_empty c.secret_file ≡ true)
      ⊎ ((bytes : Str) × (secret : Secret) × (fs.read_file c.secret_file ≡ inr bytes)
          × (fs.decode_secret bytes ≡ inr secret))

  -- The file exists, can be read, and what it holds after the environment was put in decodes to
  -- the configuration `c`, over the former one.
  abbrev Holds : Str → Config F → Config F → Type 0
  Holds file former c =
      (bytes : Str) × (fs.stat file ≡ none)
      × (fs.read_file file ≡ inr bytes)
      × (fs.decode_config (fs.expand_env bytes) former ≡ (c, none))

  -- All that `Load` needs is there, and `t` is what it leads to.
  abbrev pub Loads : Loaded F → Loaded F → Type 0
  Loads s t =
      (replace_configdir os s.file ≡ inr t.file)
      × Holds t.file s.config t.config
      × HasSecret t.config

  -- The configuration is the former one, or what the decoder has left of it.
  abbrev Left : Config F → Config F → Type 0
  Left former c =
      (c ≡ former) ⊎ ((bytes : Str) × (c ≡ (fs.decode_config (fs.expand_env bytes) former).0))

  abbrev pub Ended : Loaded F → Loaded F × Option Str → Type 0
  Ended s (t, none) = Loads s t
  Ended s (t, some err) = ((u : Loaded F) → ¬ Loads s u) × Left s.config t.config

  unreadable :
      (c : Config F) (err : Str)
      → is_empty c.secret_file ≡ false
      → fs.read_file c.secret_file ≡ inl err
      → ¬ HasSecret c
  unreadable c err a_file bad (inl empty) = ground arith
  unreadable c err a_file bad (inr (bytes, secret, read, good)) = ground arith

  undecodable :
      (c : Config F) (bytes err : Str)
      → is_empty c.secret_file ≡ false
      → fs.read_file c.secret_file ≡ inr bytes
      → fs.decode_secret bytes ≡ inl err
      → ¬ HasSecret c
  undecodable c bytes err a_file read bad (inl empty) = ground arith
  undecodable c bytes err a_file read bad (inr (bytes', secret, read', good)) =
      let same : bytes ≡ bytes' = ground arith in
      let worse : fs.decode_secret bytes' ≡ inl err = rw (← same) bad in ground arith

  read_secret_cases :
      (s : Loaded F)
      → (HasSecret s.config × (read_secret os fs s ≡ (s, none)))
        ⊎ ((¬ HasSecret s.config) × (err : Str) × (read_secret os fs s ≡ (s, some err)))
  unfolding read_secret merge_secret
  read_secret_cases s = elim (Bool-cases (is_empty s.config.secret_file)) [
    | inl no_file ↦ inl (inl no_file, rw (no_file) refl)
    | inr a_file ↦ elim (sum_cases (fs.read_file s.config.secret_file)) [
      | inl (err, bad) ↦ inr (
        unreadable s.config err a_file bad,
        text "can't load secret file: " ++ err,
        rw (a_file, bad) refl,
      )
      | inr (bytes, read) ↦ elim (sum_cases (fs.decode_secret bytes)) [
        | inl (err, bad) ↦ inr (
          undecodable s.config bytes err a_file read bad,
          text "can't unmarshal secret file: " ++ err,
          rw (a_file, read, bad) refl,
        )
        | inr (secret, good) ↦ inl (inr (bytes, secret, read, good), rw (a_file, read, good) refl)
      ]
    ]
  ]

  -- What the decoder makes of the file is determined.
  Holds-unique :
      (file bytes : Str) (former c : Config F) (d : Config F × Option Str)
      → fs.read_file file ≡ inr bytes
      → fs.decode_config (fs.expand_env bytes) former ≡ d
      → Holds file former c
      → (c, none) ≡ d
  Holds-unique file bytes former c d read result (bytes', found', read', good) =
      let same : bytes' ≡ bytes = ground arith in
      sym good ∙ ap (λ b. fs.decode_config (fs.expand_env b) former) same ∙ result

  -- There is at most one configuration that is loaded.
  pub Loads-unique : (s t u : Loaded F) → Loads s t → Loads s u → t.config ≡ u.config
  Loads-unique s t u (named, (bytes, found, read, good), secret) (named', holds', secret') =
      let same : u.file ≡ t.file = ground arith in
      ap (λ d. d.0)
        (sym (
          Holds-unique t.file bytes s.config u.config (t.config, none) read good
            (subst (λ f. Holds f s.config u.config) same holds')))

  -- The stages of `Load`, each with what the ones before it have found.
  module _ (s : Loaded F) (file : Str) (named : replace_configdir os s.file ≡ inr file) where
    Loads-at : (u : Loaded F) → Loads s u → Holds file s.config u.config × HasSecret u.config
    Loads-at u (named', holds, secret) =
        let same : u.file ≡ file = ground arith in
        (subst (λ f. Holds f s.config u.config) same holds, secret)

    module _ (bytes : Str) (found : fs.stat file ≡ none)
        (read : fs.read_file file ≡ inr bytes) where
      decoded-Ended :
          (d : Config F × Option Str)
          → fs.decode_config (fs.expand_env bytes) s.config ≡ d
          → Ended s (decoded os fs d (record s { file = file }))
      decoded-Ended (c, some err) bad = (
        (λ u l.
            let (holds, secret) = Loads-at u l in
            let same = ap (λ d. d.1) (Holds-unique file bytes s.config u.config _ read bad holds) in
            ground arith),
        inr (bytes, ap (λ d. d.0) (sym bad)),
      )
      decoded-Ended (c, none) good =
          let t : Loaded F = record { config = c; file = file } in
          elim (read_secret_cases t) [
            | inl (secret, loaded) ↦ rw (loaded) (named, (bytes, found, read, good), secret)
            | inr (no_secret, err, failed) ↦ rw (failed) (
              (λ u l.
                  let (holds, secret) = Loads-at u l in
                  let same =
                    ap (λ d. d.0) (Holds-unique file bytes s.config u.config _ read good holds) in
                  no_secret (subst HasSecret same secret)),
              inr (bytes, ap (λ d. d.0) (sym good)),
            )
          ]

    file_read-Ended :
        (x : Str ⊎ Str)
        → fs.stat file ≡ none
        → fs.read_file file ≡ x
        → Ended s (file_read os fs x (record s { file = file }))
    file_read-Ended (inl err) found bad =
        ((λ u l. let (bytes, found', read, good) = (Loads-at u l).0 in ground arith), inl refl)
    file_read-Ended (inr bytes) found read = decoded-Ended bytes found read _ refl

    file_found-Ended :
        (x : Option Str)
        → fs.stat file ≡ x
        → Ended s (file_found os fs x (record s { file = file }))
    file_found-Ended (some err) bad =
        ((λ u l. let (bytes, found, read, good) = (Loads-at u l).0 in ground arith), inl refl)
    file_found-Ended none found = file_read-Ended (fs.read_file file) found refl

  file_named-Ended :
      (s : Loaded F) (x : Str ⊎ Str)
      → replace_configdir os s.file ≡ x
      → Ended s (file_named os fs x s)
  file_named-Ended s (inl err) bad = ((λ u (named, holds, secret). ground arith), inl refl)
  file_named-Ended s (inr file) named = file_found-Ended s file named (fs.stat file) refl

  -- `Load` succeeds exactly if the name of the file can be resolved, the file exists, can be read
  -- and decoded, and so can the file of secrets, if the new configuration names one. The result
  -- is then the decoded configuration with the resolved name. If it fails, the configuration is
  -- the former one, or what the decoder has left of it.
  pub load-Ended : (s : Loaded F) → Ended s (load os fs s)
  unfolding load
  load-Ended s = file_named-Ended s (replace_configdir os s.file) refl

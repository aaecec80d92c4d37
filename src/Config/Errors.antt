-- ===== src/Config/Errors.antt =====
-- Which files are refused.
use puzzle_bubble.Prelude.{
  ◌≡◌, ◌↔◌, ◌⊎◌, ◌∈◌, refl, inl, inr, arith, ℤ, Bool, true, false, Bool-cases, Option-cases, Option,
  none, some, ◌>>=◌, List, [], ◌∷◌, drop, String, str_eq,
}
use puzzle_bubble.Config.{FileConfig, parse_duration, load_from_file}

-- The texts of the file that are durations.
abbrev pub durations : FileConfig → List String
durations raw =
    raw.auth_timeout ∷ raw.token_verify_timeout ∷ raw.idle_timeout ∷ raw.read_timeout
    ∷ raw.write_timeout ∷ raw.shutdown_timeout ∷ []

module _ (parse : String → Option ℤ) where
  -- A text that is given and is no duration.
  abbrev pub IsBad : String → Type 0
  IsBad v = (str_eq v "" ≡ false) × (parse v ≡ none)

  parse_duration-cases :
      (v : String) (d : ℤ)
      → ((parse_duration parse v d ≡ none) × IsBad v)
        ⊎ ((x : ℤ) × (parse_duration parse v d ≡ some x) × ¬ IsBad v)
  unfolding parse_duration
  parse_duration-cases v d = elim (Bool-cases (str_eq v "")) [
    | inl blank ↦ inr (d, rw (parse_duration, blank) refl, λ bad. absurd (apart blank bad.0))
    | inr given ↦ elim (Option-cases (parse v)) [
      | inl e ↦ inl (rw (parse_duration, given) e, (given, e))
      | inr (x, e) ↦ inr (x, rw (parse_duration, given) e, λ bad. absurd (differs e bad.1))
    ]
  ]
    where
      apart : {b : Bool} → b ≡ true → b ≡ false → ⊥
      apart e e' = ground arith

      differs : {o : Option ℤ} {x : ℤ} → o ≡ some x → o ≡ none → ⊥
      differs e e' = cc

  -- A result is an error, and one of the texts is bad; or it is none, and no text is.
  abbrev pub Verdict : {A : Type 0} → Option A → List String → Type 0
  Verdict o vs =
      ((o ≡ none) × (v : String) × (v ∈ vs) × IsBad v)
      ⊎ (¬ (o ≡ none) × ((v : String) → v ∈ vs → ¬ IsBad v))

  taken : {A : Type 0} (a : A) → Verdict (some a) []
  taken a = inr (λ e. absurd (cc), λ v m. absurd m)

  -- One duration more.
  bind-Verdict :
      {A : Type 0} (v : String) (d : ℤ) (k : ℤ → Option A) (vs : List String)
      → ((x : ℤ) → Verdict (k x) vs)
      → Verdict (parse_duration parse v d >>= k) (v ∷ vs)
  bind-Verdict v d k vs rest = elim (parse_duration-cases v d) [
    | inl (e, bad) ↦ inl (rw e refl, v, inl refl, bad)
    | inr (x, e, good) ↦ elim (rest x) [
      | inl (refused, u, m, bad) ↦ inl (rw e refused, u, inr m, bad)
      | inr (accepted, all_good) ↦ inr (rw e accepted, here_too good all_good)
    ]
  ]
    where
      here_too :
          ¬ IsBad v → ((u : String) → u ∈ vs → ¬ IsBad u) → (u : String) → u ∈ (v ∷ vs) → ¬ IsBad u
      here_too good all_good u (inl is) bad = good (rw is at bad)
      here_too good all_good u (inr m) bad = all_good u m bad

module _ (parse level : String → Option ℤ) where
  load_from_file-Verdict :
      (raw : FileConfig) → Verdict parse (load_from_file parse level (some raw)) (durations raw)
  unfolding load_from_file
  load_from_file-Verdict raw =
      let vs = durations raw in
      bind-Verdict parse raw.auth_timeout _ _ (drop 1 vs) (λ _.
        bind-Verdict parse raw.token_verify_timeout _ _ (drop 2 vs) (λ _.
          bind-Verdict parse raw.idle_timeout _ _ (drop 3 vs) (λ _.
            bind-Verdict parse raw.read_timeout _ _ (drop 4 vs) (λ _.
              bind-Verdict parse raw.write_timeout _ _ (drop 5 vs) (λ _.
                bind-Verdict parse raw.shutdown_timeout _ _ (drop 6 vs) (λ _. taken parse _))))))

  -- Loading the settings fails exactly if the file cannot be read, or one of its six durations is
  -- given and is no duration.
  pub load_from_file-error :
      (file : Option FileConfig)
      → (load_from_file parse level file ≡ none) ↔ (
          (file ≡ none)
          ⊎ ((raw : FileConfig) × (file ≡ some raw)
              × (v : String) × (v ∈ durations raw)
              × IsBad parse v))
  unfolding load_from_file
  load_from_file-error none = (λ _. inl refl, λ _. refl)
  load_from_file-error (some raw) = elim (load_from_file-Verdict raw) [
    | inl (e, v, given, bad) ↦ (λ _. inr (raw, refl, v, given, bad), λ _. e)
    | inr (accepted, good) ↦ (
      λ e. absurd (accepted e),
      λ why. elim why [
        | inl e ↦ absurd (cc)
        | inr (raw', e, v, given, bad) ↦
            let same : raw' ≡ raw = cc in absurd (good v (rw same at given) bad)
      ],
    )
  ]

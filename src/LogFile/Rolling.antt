-- ===== src/LogFile/Rolling.antt =====
-- A message goes into the files of the log, and a file that is full or old is rolled.
use wserver.Prelude.{
  ℕ, ◌+◌, ◌-◌, ◌≡◌, ◌≤◌, ◌⊎◌, inl, inr, refl, sym, ap, subst, ◌∙◌, true, Option, none, some, List,
  [], ◌∷◌, ◌++◌, null_deref, or_stop, ◌>>=◌, ltb, leb, Returns, Returns-map, Bool-cases, append-nil,
  append_assoc, arith,
}
use wserver.FileUtil.{AppendFile, Taken, open_file, append_file, flush_file, write_loop}
use wserver.LogFile.{
  LogFile, Env, period_of, close_file, roll_file, flush, check_period, append_to, append,
}

abbrev pub all_text : List AppendFile → List ℕ
all_text [] = []
all_text (f ∷ fs) = f.text ++ all_text fs

abbrev pub open_text : Option AppendFile → List ℕ
open_text none = []
open_text (some f) = f.text

-- The bytes of all files, in order.
abbrev pub text_of : LogFile → List ℕ
text_of l = all_text l.closed ++ open_text l.file

-- A file is open, and its day is that of the last roll.
pub record IsLog (l : LogFile) : Type 0 where
  pub current : AppendFile
  pub present : l.file ≡ some current
  pub period : l.start_of_period ≡ period_of l.last_roll

-- What rollFile leaves, at the time `later`.
record Rolled (env : Env) (l l' : LogFile) (v : IsLog l) : Type 0 where
  valid : IsLog l'
  text : text_of l' ≡ text_of l
  size : l'.roll_size ≡ l.roll_size
  rolled : env.later ≤ l'.last_roll
  new_or_same :
      (valid.current.writed_bytes ≡ 0)
      ⊎ ((valid.current.writed_bytes ≡ v.current.writed_bytes)
          × (env.later ≤ l'.last_roll)
          × (l'.last_roll ≡ l.last_roll))

all_text-append : (fs gs : List AppendFile) → all_text (fs ++ gs) ≡ all_text fs ++ all_text gs
all_text-append [] gs = refl
all_text-append (f ∷ fs) gs =
    ap (λ x. f.text ++ x) (all_text-append fs gs)
    ∙ sym (append_assoc f.text (all_text fs) (all_text gs))

closed_text : (o : Option AppendFile) → all_text (close_file o) ≡ open_text o
unfolding flush_file
closed_text none = refl
closed_text (some f) = append-nil f.text

roll_file_correct :
    (env : Env) (l : LogFile) (v : IsLog l)
    → env.opens ≡ true
    → Returns (λ l'. Rolled env l l' v) (roll_file env l)
unfolding roll_file open_file
roll_file_correct env l v o = elim (Bool-cases (ltb l.last_roll env.later)) [
  | inl e ↦
      rw (e, o)
        (
          _,
          refl,
          record {
            valid = record { current = _; present = refl; period = refl };
            text =
                append-nil (all_text (l.closed ++ close_file l.file))
                ∙ all_text-append l.closed (close_file l.file)
                ∙ ap (λ x. all_text l.closed ++ x) (closed_text l.file);
            size = refl;
            rolled = omega arith;
            new_or_same = inl refl;
          },
        )
  | inr e ↦ rw e (
    l,
    refl,
    record {
      valid = v;
      text = refl;
      size = refl;
      rolled = ground (arith, e);
      new_or_same = inr (refl, ground (arith, e), refl);
    },
  )
]

period_mono : (a b : ℕ) → a ≤ b → period_of a ≤ period_of b
period_mono a b h = omega arith

-- What the check of the day and of the flush interval leaves.
record Checked (env : Env) (l l' : LogFile) (v : IsLog l) : Type 0 where
  valid : IsLog l'
  text : text_of l' ≡ text_of l
  size : l'.roll_size ≡ l.roll_size
  fresh : period_of env.now ≤ l'.start_of_period
  kept : valid.current.writed_bytes ≤ v.current.writed_bytes

module _ (env : Env) (l : LogFile) (v : IsLog l) where
  Rolled-Checked : (l' : LogFile) → env.now ≤ env.later → Rolled env l l' v → Checked env l l' v
  Rolled-Checked l' order r = record {
    valid = r.valid;
    text = r.text;
    size = r.size;
    fresh = omega (
      arith,
      r.valid.period,
      r.rolled,
      period_mono env.now l'.last_roll (omega (arith, r.rolled)),
    );
    kept = omega (arith, r.new_or_same);
  }

  flushed_Checked :
      period_of env.now ≤ l.start_of_period
      → Returns (λ l'. Checked env l l' v) (flush (record l { last_flush = env.now }))
  unfolding flush flush_file
  flushed_Checked h = rw v.present (
    _,
    refl,
    record {
      valid = record { current = _; present = refl; period = v.period };
      text = ap (λ o. all_text l.closed ++ open_text o) (sym v.present);
      size = refl;
      fresh = h;
      kept = omega arith;
    },
  )

  check_period_correct :
      env.now ≤ env.later
      → env.opens ≡ true
      → Returns (λ l'. Checked env l l' v) (check_period env l)
  unfolding check_period
  check_period_correct order o = elim (Bool-cases (ltb l.start_of_period (period_of env.now))) [
    | inl e ↦ rw e (
        Returns-map (λ l'. Rolled env l l' v) (λ l'. Checked env l l' v) (roll_file env l)
          (roll_file_correct env l v o) (λ l'. Rolled-Checked l' order))
    | inr e ↦
        let today : period_of env.now ≤ l.start_of_period = ground (arith, e) in
        elim (Bool-cases (ltb l.flush_interval (env.now - l.last_flush))) [
          | inl f ↦ rw (e, f) (flushed_Checked today)
          | inr f ↦
              rw (e, f)
                (
                  l,
                  refl,
                  record { valid = v; text = refl; size = refl; fresh = today; kept = omega arith },
                )
        ]
  ]

-- What append leaves, after `text` was given to stdio.
pub record Appended (env : Env) (l : LogFile) (text : List ℕ) (l' : LogFile) : Type 0 where
  pub valid : IsLog l'
  pub whole : text_of l' ≡ text_of l ++ text
  pub small : (valid.current.writed_bytes ≤ l.roll_size) ⊎ (env.later ≤ l.last_roll)
  pub fresh : l.check_every_n ≤ l.cnt + 1 → (period_of env.now ≤ l'.start_of_period)

module _ (env : Env) (msg : List ℕ) (taken : List Taken) (l : LogFile) (v : IsLog l) where
  abbrev grown : AppendFile
  grown = append_file v.current msg taken

  abbrev filled : LogFile
  filled = record l { file = some grown }

  filled_IsLog : IsLog filled
  filled_IsLog = record { current = grown; present = refl; period = v.period }

  reset_IsLog : IsLog (record filled { cnt = 0 })
  reset_IsLog = record { current = grown; present = refl; period = v.period }

  filled_text : text_of filled ≡ text_of l ++ (write_loop msg taken).0
  unfolding append_file
  filled_text =
      sym (append_assoc (all_text l.closed) v.current.text (write_loop msg taken).0)
      ∙ ap (λ o. (all_text l.closed ++ open_text o) ++ (write_loop msg taken).0) (sym v.present)

  Rolled-Appended :
      (l' : LogFile)
      → env.now ≤ env.later
      → Rolled env filled l' filled_IsLog
      → Appended env l (write_loop msg taken).0 l'
  unfolding filled_IsLog
  Rolled-Appended l' order r = record {
    valid = r.valid;
    whole = r.text ∙ filled_text;
    small = omega (arith, r.new_or_same);
    fresh = λ h. omega (
      arith,
      r.valid.period,
      r.rolled,
      period_mono env.now l'.last_roll (omega (arith, r.rolled)),
    );
  }

  Checked-Appended :
      (l' : LogFile)
      → grown.writed_bytes ≤ l.roll_size
      → Checked env (record filled { cnt = 0 }) l' reset_IsLog
      → Appended env l (write_loop msg taken).0 l'
  unfolding reset_IsLog
  Checked-Appended l' h r = record {
    valid = r.valid;
    whole = r.text ∙ filled_text;
    small = inl (omega (arith, r.kept, h));
    fresh = λ _. r.fresh;
  }

  append_to_correct :
      env.now ≤ env.later
      → env.opens ≡ true
      → Returns (Appended env l (write_loop msg taken).0) (append_to env taken msg l v.current)
  unfolding append_to
  append_to_correct order o = elim (Bool-cases (ltb l.roll_size grown.writed_bytes)) [
    | inl e ↦ rw e (
        Returns-map (λ l'. Rolled env filled l' filled_IsLog)
          (Appended env l (write_loop msg taken).0) (roll_file env filled)
          (roll_file_correct env filled filled_IsLog o) (λ l'. Rolled-Appended l' order))
    | inr e ↦
        let fits : grown.writed_bytes ≤ l.roll_size = ground (arith, e) in
        elim (Bool-cases (leb l.check_every_n (l.cnt + 1))) [
          | inl c ↦
              rw (e, c)
                (Returns-map (λ l'. Checked env (record filled { cnt = 0 }) l' reset_IsLog)
                  (Appended env l (write_loop msg taken).0)
                  (check_period env (record filled { cnt = 0 }))
                  (check_period_correct env (record filled { cnt = 0 }) reset_IsLog order o)
                  (λ l'. Checked-Appended l' fits))
          | inr c ↦
              rw (e, c)
                (
                  _,
                  refl,
                  record {
                    valid = record { current = grown; present = refl; period = v.period };
                    whole = filled_text;
                    small = inl fits;
                    fresh = λ h. absurd (ground (arith, c, h));
                  },
                )
        ]
  ]

  -- append while fopen succeeds and the clock does not go back: the call returns; the bytes of all
  -- files, in order, are those that were there and those that stdio took of the message; the
  -- count m_writed_bytes of the open file is at most the roll size, unless rollFile made a file in this
  -- very second; and with every
  -- `m_check_every_N`-th message the open file is one of this day.
  pub append-text_of :
      env.now ≤ env.later
      → env.opens ≡ true
      → Returns (Appended env l (write_loop msg taken).0) (append env taken msg l)
  unfolding append
  append-text_of order o =
      subst (Returns (Appended env l (write_loop msg taken).0))
        (ap (λ o. or_stop o null_deref >>= append_to env taken msg l) (sym v.present))
        (append_to_correct order o)

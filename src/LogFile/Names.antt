-- ===== src/LogFile/Names.antt =====
-- getLogFileName, and the seconds in the names of the files that one LogFile makes. strftime with localtime is the
-- parameter `stamp`, what gethostname writes is `hostname`, and the process id is `pid`.
use wserver.Prelude.{
  ℕ, ◌+◌, ◌-◌, ◌≡◌, ◌<◌, refl, sym, ap, subst, inl, inr, true, some, List, [], ◌∷◌, ◌++◌, take,
  codes, Exec, done, null_deref, or_stop, ◌>>=◌, ltb, leb, ◌==◌, if◌then◌else◌, Returns,
  Returns-bind, Bool-cases, arith,
}
use wserver.Prelude.Decimal.{decimal}
use wserver.FileUtil.{AppendFile, Taken, open_file, append_file, flush_file}
use wserver.LogFile.{
  LogFile, Env, period_of, roll_file, flush, check_period, append_to, append, new,
}

-- A C string in an array: the bytes before the first NUL.
unfoldable pub c_string : List ℕ → List ℕ
c_string [] = []
c_string (c ∷ cs) = if c == 0 then [] else c ∷ c_string cs

-- `hostname[255] = '\0'`, and the text in front of the first NUL.
unfoldable pub host_text : List ℕ → List ℕ
host_text hostname = c_string (take 255 hostname ++ 0 ∷ [])

unfoldable pub get_log_file_name : (ℕ → List ℕ) → List ℕ → List ℕ → ℕ → ℕ → List ℕ
get_log_file_name stamp basename hostname pid now =
    (((basename ++ stamp now) ++ host_text hostname) ++ take 31 (codes "." ++ decimal pid))
    ++ codes ".log"

-- The messages of one LogFile, each with what the clock, fopen and fwrite give.
unfoldable pub append_all : List (Env × List Taken × List ℕ) → LogFile → Exec LogFile
append_all [] l = done l
append_all (m ∷ ms) l = append m.0 m.1 m.2 l >>= append_all ms

-- The seconds in the names of the files, the oldest first, before the second `n`.
abbrev pub next : List AppendFile → ℕ → ℕ
next [] n = n
next (f ∷ fs) n = f.name

abbrev pub Rising : List AppendFile → ℕ → Type 0
Rising [] n = Unit {0}
Rising (f ∷ fs) n = (f.name < next fs n) × Rising fs n

pub record IsNamed (l : LogFile) : Type 0 where
  pub current : AppendFile
  pub present : l.file ≡ some current
  pub name : current.name ≡ l.last_roll
  pub rising : Rising l.closed l.last_roll

next-append :
    (fs : List AppendFile) (f : AppendFile) (n : ℕ) → next (fs ++ f ∷ []) n ≡ next fs f.name
next-append [] f n = refl
next-append (g ∷ fs) f n = refl

Rising-append :
    (fs : List AppendFile) (f : AppendFile) (n : ℕ)
    → f.name < n
    → Rising fs f.name
    → Rising (fs ++ f ∷ []) n
Rising-append [] f n h r = (h, tt)
Rising-append (g ∷ fs) f n h r =
    (subst (λ x. g.name < x) (sym (next-append fs f n)) r.0, Rising-append fs f n h r.1)

roll_file-IsNamed :
    (env : Env) (l : LogFile) → IsNamed l → env.opens ≡ true → Returns IsNamed (roll_file env l)
unfolding roll_file open_file flush_file
roll_file-IsNamed env l v o = elim (Bool-cases (ltb l.last_roll env.later)) [
  | inl e ↦
      let last = flush_file v.current in
      let more : Rising (l.closed ++ last ∷ []) env.later =
        Rising-append l.closed last env.later (ground (arith, e, v.name))
          (subst (Rising l.closed) (sym v.name) v.rising) in
      rw (e, o, v.present)
        (_, refl, record { current = _; present = refl; name = refl; rising = more })
  | inr e ↦ rw e (l, refl, v)
]

flush-IsNamed : (l : LogFile) → IsNamed l → Returns IsNamed (flush l)
unfolding flush flush_file
flush-IsNamed l v =
    rw v.present (_, refl, record { current = _; present = refl; name = v.name; rising = v.rising })

check_period-IsNamed :
    (env : Env) (l : LogFile) → IsNamed l → env.opens ≡ true → Returns IsNamed (check_period env l)
unfolding check_period
check_period-IsNamed env l v o = elim (Bool-cases (ltb l.start_of_period (period_of env.now))) [
  | inl e ↦ rw e (roll_file-IsNamed env l v o)
  | inr e ↦ elim (Bool-cases (ltb l.flush_interval (env.now - l.last_flush))) [
    | inl f ↦
        rw (e, f)
          (flush-IsNamed (record l { last_flush = env.now })
            (record { current = v.current; present = v.present; name = v.name; rising = v.rising }))
    | inr f ↦ rw (e, f) (l, refl, v)
  ]
]

-- Another file and another count, but the same names.
with_file :
    (l : LogFile) (f : AppendFile) (cnt : ℕ)
    → IsNamed l
    → f.name ≡ l.last_roll
    → IsNamed (record l { file = some f; cnt = cnt })
with_file l f cnt v e = record { current = f; present = refl; name = e; rising = v.rising }

append_to-IsNamed :
    (env : Env) (taken : List Taken) (msg : List ℕ) (l : LogFile) (v : IsNamed l)
    → env.opens ≡ true
    → Returns IsNamed (append_to env taken msg l v.current)
unfolding append_to append_file
append_to-IsNamed env taken msg l v o =
    let f = append_file v.current msg taken in
    let filled = record l { file = some f } in
    elim (Bool-cases (ltb l.roll_size f.writed_bytes)) [
      | inl e ↦ rw e (roll_file-IsNamed env filled (with_file l f l.cnt v v.name) o)
      | inr e ↦ elim (Bool-cases (leb l.check_every_n (l.cnt + 1))) [
        | inl c ↦
            rw (e, c)
              (check_period-IsNamed env (record filled { cnt = 0 }) (with_file l f 0 v v.name) o)
        | inr c ↦ rw (e, c) (_, refl, with_file l f (l.cnt + 1) v v.name)
      ]
    ]

append-IsNamed :
    (env : Env) (taken : List Taken) (msg : List ℕ) (l : LogFile)
    → IsNamed l
    → env.opens ≡ true
    → Returns IsNamed (append env taken msg l)
unfolding append
append-IsNamed env taken msg l v o =
    subst (Returns IsNamed)
      (ap (λ x. or_stop x null_deref >>= append_to env taken msg l) (sym v.present))
      (append_to-IsNamed env taken msg l v o)

-- Every call of fopen succeeds.
abbrev pub AllOpen : List (Env × List Taken × List ℕ) → Type 0
AllOpen [] = Unit {0}
AllOpen (m ∷ ms) = (m.0.opens ≡ true) × AllOpen ms

pub append_all-IsNamed :
    (ms : List (Env × List Taken × List ℕ)) (l : LogFile)
    → IsNamed l
    → AllOpen ms
    → Returns IsNamed (append_all ms l)
unfolding append_all
append_all-IsNamed [] l v o = (l, refl, v)
append_all-IsNamed (m ∷ ms) l v o =
    Returns-bind IsNamed IsNamed (append m.0 m.1 m.2 l) (append_all ms)
      (append-IsNamed m.0 m.1 m.2 l v o.0) λ l' v'. append_all-IsNamed ms l' v' o.1

pub new-IsNamed :
    (roll_size flush_interval check_every_n : ℕ) (env : Env)
    → 0 < env.later
    → env.opens ≡ true
    → Returns IsNamed (new roll_size flush_interval check_every_n env)
unfolding new roll_file open_file
new-IsNamed roll_size flush_interval check_every_n env h o =
    let e : ltb 0 env.later ≡ true = ground (arith, h) in
    rw (e, o) (_, refl, record { current = _; present = refl; name = refl; rising = tt })

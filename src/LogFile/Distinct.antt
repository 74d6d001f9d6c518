-- ===== src/LogFile/Distinct.antt =====
-- The files that one LogFile makes, and when their names can be the same.
use wserver.Prelude.{
  ℕ, ◌≡◌, sym, subst, ◌<◌, true, Option, none, some, List, [], ◌∷◌, ◌++◌, take, append_cancel_left,
  append_cancel_right, codes, ◌>>=◌, Returns, Returns-map, Returns-bind, arith,
}
use wserver.Prelude.Decimal.{decimal}
use wserver.FileUtil.{AppendFile, Taken}
use wserver.LogFile.{LogFile, Env, new}
use wserver.LogFile.Names.{
  host_text, get_log_file_name, append_all, AllOpen, next, Rising, IsNamed, append_all-IsNamed,
  new-IsNamed,
}

module _ (stamp : ℕ → List ℕ) (basename hostname : List ℕ) (pid : ℕ) where
  abbrev pub name_of : ℕ → List ℕ
  name_of now = get_log_file_name stamp basename hostname pid now

  -- A file of the second `i` and a later one: it is of a later second, and only where strftime gives
  -- the two seconds the same text do the files have the same name.
  abbrev pub Behind : ℕ → AppendFile → Type 0
  Behind i g = (i < g.name) × (name_of i ≡ name_of g.name → stamp i ≡ stamp g.name)

  abbrev pub AllBehind : ℕ → List AppendFile → Type 0
  AllBehind i [] = Unit {0}
  AllBehind i (g ∷ gs) = Behind i g × AllBehind i gs

  abbrev pub Ordered : List AppendFile → Type 0
  Ordered [] = Unit {0}
  Ordered (f ∷ fs) = AllBehind f.name fs × Ordered fs

  abbrev open_files : Option AppendFile → List AppendFile
  open_files none = []
  open_files (some f) = f ∷ []

  -- All files, the oldest first.
  abbrev pub files : LogFile → List AppendFile
  files l = l.closed ++ open_files l.file

  name_of-stamp : (i j : ℕ) → name_of i ≡ name_of j → stamp i ≡ stamp j
  unfolding get_log_file_name
  name_of-stamp i j e =
      let process = take 31 (codes "." ++ decimal pid) in
      let no_end =
        append_cancel_right (((basename ++ stamp i) ++ host_text hostname) ++ process)
          (((basename ++ stamp j) ++ host_text hostname) ++ process) (codes ".log") e in
      let no_process =
        append_cancel_right ((basename ++ stamp i) ++ host_text hostname)
          ((basename ++ stamp j) ++ host_text hostname) process no_end in
      let no_host =
        append_cancel_right (basename ++ stamp i) (basename ++ stamp j) (host_text hostname)
          no_process in
      append_cancel_left basename (stamp i) (stamp j) no_host

  Rising-AllBehind :
      (fs : List AppendFile) (g : AppendFile) (i : ℕ)
      → i < next fs g.name
      → Rising fs g.name
      → AllBehind i (fs ++ g ∷ [])
  Rising-AllBehind [] g i h r = ((h, name_of-stamp i g.name), tt)
  Rising-AllBehind (f ∷ fs) g i h r =
      ((h, name_of-stamp i f.name), Rising-AllBehind fs g i (omega (arith, h, r.0)) r.1)

  Rising-Ordered :
      (fs : List AppendFile) (g : AppendFile) → Rising fs g.name → Ordered (fs ++ g ∷ [])
  Rising-Ordered [] g r = (tt, tt)
  Rising-Ordered (f ∷ fs) g r = (Rising-AllBehind fs g f.name r.0 r.1, Rising-Ordered fs g r.1)

  IsNamed-Ordered : (l : LogFile) → IsNamed l → Ordered (files l)
  IsNamed-Ordered l v =
      rw v.present
        (Rising-Ordered l.closed v.current (subst (Rising l.closed) (sym v.name) v.rising))

  -- A LogFile and the messages that it is given, whatever the clock says and however much fwrite
  -- takes, while fopen succeeds and the clock of the first file is behind 0: every call returns, each
  -- file is made in a later second than all those before it, and two of its files have the same name
  -- only where strftime gives their two seconds the same text.
  pub append_all-Ordered :
      (roll_size flush_interval check_every_n : ℕ) (env : Env)
      (ms : List (Env × List Taken × List ℕ))
      → 0 < env.later
      → env.opens ≡ true
      → AllOpen ms
      → Returns
          (λ l. Ordered (files l))
          (new roll_size flush_interval check_every_n env >>= append_all ms)
  append_all-Ordered roll_size flush_interval check_every_n env ms h o all =
      Returns-bind IsNamed _ (new roll_size flush_interval check_every_n env) (append_all ms)
        (new-IsNamed roll_size flush_interval check_every_n env h o)
        λ l v.
          Returns-map IsNamed _ (append_all ms l) (append_all-IsNamed ms l v all)
            λ l' v'. IsNamed-Ordered l' v'

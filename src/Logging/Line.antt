-- ===== src/Logging/Line.antt =====
-- The text of a log line, and what becomes of it.
use wserver.Prelude.{
  ℕ, ◌+◌, ◌^◌, ◌≡◌, ◌<◌, refl, ap, ◌∙◌, true, false, List, [], ◌∷◌, ◌++◌, codes, length,
  length-append, length-replicate, replicate, Exec, done, stop, ◌>>=◌, if◌then◌else◌, inl, inr,
  Bool-cases, arith,
}
use wserver.LogStream.{FixedBuffer, strncpy, put_string, put_strings, put_char}
use wserver.LogStream.Digits.{Converted, convert_correct}
use wserver.LogStream.Texts.{
  Holds, joined, put_strings-Holds, put_string-Holds, put_integer-Holds, text_of-Holds,
}
use wserver.AsyncLog
use wserver.AsyncLog.{AsyncLog}
use wserver.Logging.{
  LogLevel, log_level_name, is_logged, Site, impl, new, finish, abort_if_fatal, destroy, log_line,
}

-- The texts of a line up to its number, in order.
abbrev pub pieces : Site → List (List ℕ) → List (List ℕ)
pieces s parts =
    s.time
    ∷ codes " "
    ∷ s.tid
    ∷ codes " "
    ∷ log_level_name s.level
    ∷ codes " "
    ∷ s.func
    ∷ codes " "
    ∷ (parts ++ (codes " - " ∷ s.basename ∷ codes ":" ∷ []))

-- The line, with the text of its number.
abbrev pub line_text : Site → List (List ℕ) → List ℕ → List ℕ
line_text s parts number = (joined (pieces s parts) ++ number) ++ 10 ∷ []

abbrev fresh : ℕ → FixedBuffer
fresh size = record { cur_index = 0; buf = replicate size 0 }

fresh-Holds : (size : ℕ) → Holds size [] (fresh size)
fresh-Holds size = record {
  index = refl;
  bytes = refl;
  whole = length-replicate size 0;
  fits = omega arith;
}

-- A chain that returns is two chains that do.
bind_done :
    {A B : Type 0} (r : Exec A) (f : A → Exec B) (c : B)
    → (r >>= f) ≡ done c
    → (a : A) × (r ≡ done a) × (f a ≡ done c)
bind_done (done a) f c e = (a, refl, e)
bind_done (stop h) f c e = absurd (cc e)

put_strings_split :
    (ps qs : List (List ℕ)) (b c : FixedBuffer)
    → put_strings (ps ++ qs) b ≡ done c
    → (m : FixedBuffer) × (put_strings ps b ≡ done m) × (put_strings qs m ≡ done c)
unfolding put_strings
put_strings_split [] qs b c e = (b, refl, e)
put_strings_split (p ∷ ps) qs b c e =
    let (a, d, f) = bind_done (put_string p b) (put_strings (ps ++ qs)) c e in
    let (m, g, h) = put_strings_split ps qs a c f in (m, ap (λ r. r >>= put_strings ps) d ∙ g, h)

put_char-put_string : (c : ℕ) (b : FixedBuffer) → put_char c b ≡ put_string (c ∷ []) b
unfolding put_char put_string
put_char-put_string c b = refl

newline : strncpy (10 ∷ []) ≡ 10 ∷ []
unfolding strncpy
newline = refl

-- Where all but the number fits, with room for the longest number.
logged :
    (g_flush : AsyncLog → Exec AsyncLog) (size larger : ℕ) (g : LogLevel) (s : Site)
    (parts : List (List ℕ)) (a : AsyncLog)
    → is_logged g s.level ≡ true
    → length (joined (pieces s parts)) + 48 < size
    → s.line < 2 ^ 64
    → (number : List ℕ) × Converted s.line false number
      × (log_line g_flush size larger g s parts a ≡ (
          AsyncLog.append larger (line_text s parts number) a >>= abort_if_fatal g_flush s.level))
unfolding log_line destroy finish new impl
logged g_flush size larger g s parts a on room small =
    let (b, e, h) =
      put_strings-Holds size [] (pieces s parts) (fresh size) (fresh-Holds size) (omega arith) in
    let (b1, e1, f1) = put_strings_split (s.time ∷ codes " " ∷ []) _ (fresh size) b e in
    let (b2, e2, f2) =
      put_strings_split (s.tid ∷ codes " " ∷ log_level_name s.level ∷ codes " " ∷ []) _ b1 b f1 in
    let (b3, e3, f3) = put_strings_split (s.func ∷ codes " " ∷ []) _ b2 b f2 in
    let (b4, e4, f4) = put_strings_split parts _ b3 b f3 in
    let (number, c, (b5, e5, h5)) =
      put_integer-Holds size (joined (pieces s parts)) s.line b h room small in
    let (b6, e6, h6) =
      put_string-Holds size (joined (pieces s parts) ++ number) (10 ∷ []) b5 h5
        (omega (arith, length-append (joined (pieces s parts)) number, c.short small)) in
    (
      number,
      c,
      rw
          (
            on,
            e1,
            e2,
            e3,
            e4,
            f4,
            e5,
            put_char-put_string 10 b5 ∙ e6,
            text_of-Holds size _ b6 h6 ∙ ap (λ x. (joined (pieces s parts) ++ number) ++ x) newline,
          )
          refl,
    )

not_logged :
    (g_flush : AsyncLog → Exec AsyncLog) (size larger : ℕ) (g : LogLevel) (s : Site)
    (parts : List (List ℕ)) (a : AsyncLog)
    → is_logged g s.level ≡ false
    → log_line g_flush size larger g s parts a ≡ done a
unfolding log_line
not_logged g_flush size larger g s parts a off = rw off refl

-- A log statement whose texts fit into the buffer of a line, with 48 bytes and one more for the number:
-- where its level is logged, the log of the front ends is given one message, and this is the time, the
-- thread, the level, the function, what the statement puts in, and behind " - " the file, ":" and the
-- numeral of the line number, with a newline at the end, each of these texts as strncpy copies it;
-- behind a LOG_FATAL line the flush function is called, and where it returns the process aborts. Where
-- the level is not logged, nothing happens.
pub log_line_correct :
    (g_flush : AsyncLog → Exec AsyncLog) (size larger : ℕ) (g : LogLevel) (s : Site)
    (parts : List (List ℕ)) (a : AsyncLog)
    → length (joined (pieces s parts)) + 48 < size
    → s.line < 2 ^ 64
    → (number : List ℕ) × Converted s.line false number
      × (log_line g_flush size larger g s parts a ≡ (
          if is_logged g s.level
          then (AsyncLog.append larger (line_text s parts number) a
              >>= abort_if_fatal g_flush s.level)
          else done a))
log_line_correct g_flush size larger g s parts a room small =
    elim (Bool-cases (is_logged g s.level)) [
      | inl on ↦
          let (number, c, e) = logged g_flush size larger g s parts a on room small in
          (number, c, rw on e)
      | inr off ↦
          let (number, e, c) = convert_correct s.line false in
          (number, c, rw off (not_logged g_flush size larger g s parts a off))
    ]

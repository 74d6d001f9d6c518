-- ===== src/FileUtil.antt =====
-- base/FileUtil.h and base/FileUtil.cpp: a file that is appended to, and the bytes given to stdio.
pub mod Append
use wserver.Prelude.{
  ℕ, ◌+◌, ◌≡◌, ◌≤◌, ◌⊎◌, inl, inr, refl, sym, ap, ◌∙◌, Bool, true, false, Option, none, some, List,
  [], ◌∷◌, ◌++◌, length, take, drop, min, Exec, done, stop, null_deref, require, ◌>>=◌, ◌>>◌, leb,
  ltb, if◌then◌else◌, append-nil, append_assoc, take-append-drop, length-take, length-drop,
  length-append, arith, Bool-cases, take-all,
}

-- What one call of fwrite gives: it takes `n` bytes at most, and `err` is what ferror says where these
-- are not all. After the results of a list every call takes all bytes.
pub record Taken : Type 0 where
  pub most : ℕ
  pub err : Bool

-- `name` is the second that is in the file's name, `text` the bytes given to stdio, and `flushed` those
-- of them that were flushed.
pub record AppendFile : Type 0 where
  pub name : ℕ
  pub text : List ℕ
  pub writed_bytes : ℕ
  pub flushed : ℕ

-- The constructor: `setbuffer` is called on what fopen returned.
unfoldable pub open_file : ℕ → Bool → Exec AppendFile
open_file name opens = do
  require opens null_deref
  done (record { name = name; text = []; writed_bytes = 0; flushed = 0 })

-- The loop of append: the bytes that stdio takes, and the value of `written` behind it.
unfoldable pub write_loop : List ℕ → List Taken → List ℕ × ℕ
write_loop msg [] = (msg, length msg)
write_loop msg (t ∷ ts) =
    let rest = write_loop (drop t.most msg) ts in
    if leb (length msg) t.most
    then (msg, length msg)
    else if t.err
    then (take t.most msg, 0)
    else (take t.most msg ++ rest.0, t.most + rest.1)

unfoldable pub append_file : AppendFile → List ℕ → List Taken → AppendFile
append_file f msg ts =
    let w = write_loop msg ts in
    record f { text = f.text ++ w.0; writed_bytes = f.writed_bytes + w.1 }

unfoldable pub flush_file : AppendFile → AppendFile
flush_file f = record f { flushed = length f.text }

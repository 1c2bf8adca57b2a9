-- ===== src/Log.antt =====
-- The debug log: `dbg` and `dbg_hex` of src/vmodem.c, which write it, and MUX_DEBUGLOG of src/int8.c,
-- which hands it over.
pub mod Kept
mod Tests
use vmodem.Prelude.{
  ℕ, zero, suc, ◌+◌, ◌-◌, ◌/◌, ◌%◌, Bool, true, false, List, [], ◌∷◌, ◌++◌, ltb, if◌then◌else◌,
  get_or, set, take, codes,
}

abbrev pub dbglog_size : ℕ
dbglog_size = 2048

-- `dbglog`, `dbglog_head` and `dbglog_count`
pub record Log : Type 0 where
  pub bytes : List ℕ
  pub head : ℕ
  pub count : ℕ

unfoldable pub dbg_byte : ℕ → Log → Log
dbg_byte c l = record {
  bytes = set l.bytes l.head c;
  head = (l.head + 1) % dbglog_size;
  count = if ltb l.count dbglog_size then l.count + 1 else l.count;
}

-- A text is its characters before the NUL.
unfoldable pub dbg : List ℕ → Log → Log
unfolding dbg_byte
dbg [] l = l
dbg (c ∷ msg) l = dbg msg (dbg_byte c l)

abbrev hex_char : ℕ → ℕ
hex_char n = get_or (codes "0123456789ABCDEF") n 0

-- At most four characters of the prefix, two digits and a space.
unfoldable pub dbg_hex : List ℕ → ℕ → Log → Log
unfolding dbg
dbg_hex prefix val l =
    dbg (take 4 prefix ++ (hex_char (val / 16 % 16) ∷ hex_char (val % 16) ∷ b' ' ∷ [])) l

-- `n` bytes from the index `start` on, going round.
unfoldable pub copy_log : ℕ → ℕ → List ℕ → List ℕ
copy_log zero start bytes = []
copy_log (suc n) start bytes = get_or bytes start 0 ∷ copy_log n ((start + 1) % dbglog_size) bytes

-- MUX_DEBUGLOG with a buffer of `bufsz` bytes: what is copied, and the log after it.
unfoldable pub debuglog : ℕ → Log → List ℕ × Log
unfolding copy_log
debuglog bufsz l =
    let n = if ltb bufsz l.count then bufsz else l.count in
    (
      copy_log n ((l.head + dbglog_size - n) % dbglog_size) l.bytes,
      record l { count = 0; head = 0 },
    )

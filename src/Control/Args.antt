-- ===== src/Control/Args.antt =====
-- The command line of src/vmodem.c: `parse_args`. A character behind the end of a text reads as the
-- NUL; an argument is its characters before the NUL.
pub mod Printed
use vmodem.Prelude.{
  is_decimal, ℕ, zero, suc, ◌+◌, ◌-◌, ◌*◌, ◌%◌, Bool, true, false, not, ◌&&◌, ◌||◌, Option, none,
  some, List, [], ◌∷◌, ◌++◌, ltb, leb, ◌==◌, if◌then◌else◌, get_or, drop, length, take,
}

-- `PortArg`; `last_com` is `none` for -1, which also tells the two types apart.
pub record PortArg : Type 0 where
  pub first_com : ℕ
  pub last_com : Option ℕ
  pub tcp_port : ℕ

-- The variables that `parse_args` sets.
pub record Options : Type 0 where
  pub want_unload : Bool
  pub want_help : Bool
  pub eager_listen : Bool
  pub port_args : List PortArg
  pub log_file : List ℕ

abbrev pub no_options : Options
no_options = record {
  want_unload = false;
  want_help = false;
  eager_listen = false;
  port_args = [];
  log_file = [];
}

-- The `isspace` characters.
abbrev is_space : ℕ → Bool
is_space c = c == 32 || (leb 9 c && leb c 13)

-- The digits of `atoi`, as an `unsigned short` keeps them.
unfoldable pub atoi_digits : ℕ → List ℕ → ℕ
atoi_digits acc [] = acc
atoi_digits acc (c ∷ cs) =
    let more = atoi_digits ((acc * 10 + (c - b'0')) % 65536) cs in
    if is_decimal c then more else acc

unfoldable pub skip_spaces : List ℕ → List ℕ
skip_spaces [] = []
skip_spaces (c ∷ cs) = let more = skip_spaces cs in if is_space c then more else c ∷ cs

-- `(unsigned short)atoi(s)`: white space, a sign and digits.
unfoldable pub atoi_port : List ℕ → ℕ
unfolding atoi_digits skip_spaces
atoi_port s = elim (skip_spaces s) [
  | [] ↦ 0
  | c ∷ cs ↦
      if c == b'-'
      then (65536 - atoi_digits 0 cs) % 65536
      else if c == b'+'
      then atoi_digits 0 cs
      else atoi_digits 0 (c ∷ cs)
]

abbrev pub max_port_args : ℕ
max_port_args = 4

-- `*p - '0'` for the test that it is 1 to 4.
abbrev is_com : ℕ → Bool
is_com c = leb b'1' c && leb c b'4'

-- One more port argument, if its port is not 0 and there is room for it.
unfoldable pub add_port_arg : ℕ → Option ℕ → ℕ → Options → Option Options
add_port_arg first last port o =
    if port == 0
    then none
    else if leb max_port_args (length o.port_args)
    then none
    else some (record o {
      port_args =
          o.port_args ++ (record { first_com = first; last_com = last; tcp_port = port } ∷ []);
    })

-- What follows `/L:`.
unfoldable pub parse_listen : List ℕ → Options → Option Options
unfolding atoi_port add_port_arg
parse_listen p o =
    let at = λ (i : ℕ). get_or p i 0 in
    if not (is_com (at 0))
    then none
    else if at 1 == b'-'
    then (if not (is_com (at 2)) || ltb (at 2) (at 0) || not (at 3 == b':')
        then none
        else add_port_arg (at 0 - b'1') (some (at 2 - b'1')) (atoi_port (drop 4 p)) o)
    else if at 1 == b':'
    then add_port_arg (at 0 - b'1') none (atoi_port (drop 2 p)) o
    else none

unfoldable pub upper : ℕ → ℕ
upper c = if leb b'a' c && leb c b'z' then c - 32 else c

-- What an option does: refuse the command line, end its reading, or go on.
pub data Outcome : Type 0 where
  bad : Outcome
  finished : Options → Outcome
  next : Options → Outcome

abbrev pub or_bad : Option Options → Outcome
or_bad none = bad
or_bad (some o) = next o

-- `/D:` with a name of at most 63 characters
unfoldable pub parse_log : List ℕ → Options → Outcome
parse_log [] o = bad
parse_log (c ∷ cs) o = next (record o { log_file = take 63 (c ∷ cs) })

unfoldable pub parse_arg : List ℕ → Options → Outcome
unfolding parse_listen parse_log upper
parse_arg arg o =
    let first = get_or arg 0 0 in
    let c = upper (get_or arg 1 0) in
    let colon = get_or arg 2 0 == b':' in
    if not (first == b'/' || first == b'-')
    then next o
    else if c == b'H' || c == b'?'
    then finished (record o { want_help = true })
    else if c == b'U'
    then next (record o { want_unload = true })
    else if c == b'E'
    then next (record o { eager_listen = true })
    else if c == b'D' && colon
    then parse_log (drop 3 arg) o
    else if c == b'L' && colon
    then or_bad (parse_listen (drop 3 arg) o)
    else bad

-- The arguments after the program's name; `none` is -1.
unfoldable pub parse_args : List (List ℕ) → Options → Option Options
unfolding parse_arg
parse_args [] o = some o
parse_args (arg ∷ args) o = elim (parse_arg arg o) [
  | bad ↦ none
  | finished o' ↦ some o'
  | next o' ↦ parse_args args o'
]

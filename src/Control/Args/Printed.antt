-- ===== src/Control/Args/Printed.antt =====
-- `parse_args` (src/vmodem.c) on port arguments as its help text writes them.
use vmodem.Prelude.{
  ℕ, ◌+◌, ◌-◌, ◌*◌, ◌%◌, ◌≤◌, ◌<◌, ◌≡◌, refl, sym, ap, ap₂, ◌∙◌, Option, none, some, List, [], ◌∷◌,
  ◌++◌, append_assoc, append-nil, map, arith, length, length-append, decimal, fold_digits,
  AllDigits, fold_digits-decimal, decimal_digits-AllDigits,
}
use vmodem.Control.Args.{
  PortArg, Options, atoi_digits, skip_spaces, atoi_port, add_port_arg, parse_listen, upper, next,
  parse_arg, parse_args, no_options, or_bad,
}

-- COM 1 to 4, a range upwards, and a port that is not 0.
pub record IsPortArg (a : PortArg) : Type 0 where
  pub com_in : a.first_com ≤ 3
  pub range_in : (l : ℕ) → a.last_com ≡ some l → (a.first_com ≤ l) × (l ≤ 3)
  pub port_set : 0 < a.tcp_port
  pub port_in : a.tcp_port < 65536

abbrev pub AllPortArgs : List PortArg → Type 0
AllPortArgs [] = Unit {0}
AllPortArgs (a ∷ as') = IsPortArg a × AllPortArgs as'

abbrev print_tail : Option ℕ → ℕ → List ℕ
print_tail none port = b':' ∷ decimal port
print_tail (some l) port = b'-' ∷ (b'1' + l) ∷ b':' ∷ decimal port

-- `/L:n:port` or `/L:n-m:port`
abbrev pub print_arg : PortArg → List ℕ
print_arg a = b'/' ∷ b'L' ∷ b':' ∷ (b'1' + a.first_com) ∷ print_tail a.last_com a.tcp_port

atoi_digits_fold :
    (ds : List ℕ) (acc k : ℕ)
    → AllDigits ds
    → atoi_digits acc ds ≡ (fold_digits 65536 ds (acc, k)).0
unfolding atoi_digits
atoi_digits_fold [] acc k h = refl
atoi_digits_fold (d ∷ ds) acc k (h, hs) =
    rw h (atoi_digits_fold ds ((acc * 10 + (d - b'0')) % 65536) (k + 1) hs)

atoi_fold :
    (ds : List ℕ)
    → AllDigits ds
    → 0 < (fold_digits 65536 ds (0, 0)).1
    → atoi_port ds ≡ (fold_digits 65536 ds (0, 0)).0
unfolding atoi_port skip_spaces
atoi_fold [] h some_digit = absurd (omega arith)
atoi_fold (d ∷ ds) (h, hs) some_digit = ground (arith, h, atoi_digits_fold (d ∷ ds) 0 0 (h, hs))

atoi_port-decimal : (n : ℕ) → n < 65536 → atoi_port (decimal n) ≡ n
atoi_port-decimal n h =
    let (value, some_digit) = fold_digits-decimal 65536 (λ n. omega arith) n n (omega arith) in
    atoi_fold (decimal n) (decimal_digits-AllDigits n n (omega arith)) some_digit
    ∙ value
    ∙ omega arith

abbrev with_arg : PortArg → Options → Options
with_arg a o = record o { port_args = o.port_args ++ (a ∷ []) }

single_lem :
    (f port : ℕ) (o : Options)
    → f ≤ 3
    → parse_listen ((b'1' + f) ∷ b':' ∷ decimal port) o
      ≡ add_port_arg f none (atoi_port (decimal port)) o
unfolding parse_listen
single_lem f port o h =
    let e : b'1' + f - b'1' ≡ f = omega arith in
    ground (arith, ap (λ g. add_port_arg g none (atoi_port (decimal port)) o) e)

range_lem :
    (f l port : ℕ) (o : Options)
    → f ≤ l
    → l ≤ 3
    → parse_listen ((b'1' + f) ∷ b'-' ∷ (b'1' + l) ∷ b':' ∷ decimal port) o
      ≡ add_port_arg f (some l) (atoi_port (decimal port)) o
unfolding parse_listen
range_lem f l port o h h' =
    let e : b'1' + f - b'1' ≡ f = omega arith in
    let e' : b'1' + l - b'1' ≡ l = omega arith in
    ground (arith, ap₂ (λ g m. add_port_arg g (some m) (atoi_port (decimal port)) o) e e')

add_lem :
    (f : ℕ) (l : Option ℕ) (port : ℕ) (o : Options)
    → 0 < port
    → length o.port_args < 4
    → add_port_arg f l port o
      ≡ some (with_arg (record { first_com = f; last_com = l; tcp_port = port }) o)
unfolding add_port_arg
add_lem f l port o h room = ground arith

tail_lem :
    (f : ℕ) (l : Option ℕ) (port : ℕ) (o : Options)
    → IsPortArg (record { first_com = f; last_com = l; tcp_port = port })
    → length o.port_args < 4
    → parse_listen ((b'1' + f) ∷ print_tail l port) o
      ≡ some (with_arg (record { first_com = f; last_com = l; tcp_port = port }) o)
tail_lem f none port o v room =
    single_lem f port o v.com_in
    ∙ ap (λ p. add_port_arg f none p o) (atoi_port-decimal port v.port_in)
    ∙ add_lem f none port o v.port_set room
tail_lem f (some l) port o v room =
    let (le, le3) = v.range_in l refl in
    range_lem f l port o le le3
    ∙ ap (λ p. add_port_arg f (some l) p o) (atoi_port-decimal port v.port_in)
    ∙ add_lem f (some l) port o v.port_set room

parse_arg-print :
    (a : PortArg) (o : Options)
    → IsPortArg a
    → length o.port_args < 4
    → parse_arg (print_arg a) o ≡ next (with_arg a o)
unfolding parse_arg upper
parse_arg-print a o v room = ap or_bad (tail_lem a.first_com a.last_com a.tcp_port o v room)

parse_args-prints :
    (as' : List PortArg) (o : Options)
    → AllPortArgs as'
    → length o.port_args + length as' ≤ 4
    → parse_args (map print_arg as') o ≡ some (record o { port_args = o.port_args ++ as' })
unfolding parse_args
parse_args-prints [] o h room =
    ap (λ l. some (record o { port_args = l })) (sym (append-nil o.port_args))
parse_args-prints (a ∷ as') o (h, hs) room =
    let step = parse_arg-print a o h (omega arith) in
    rw (step, parse_args)
      (parse_args-prints as' (with_arg a o) hs (omega (arith, length-append o.port_args (a ∷ [])))
        ∙ ap (λ l. some (record o { port_args = l })) (append_assoc o.port_args (a ∷ []) as'))

-- At most four port arguments, written as the help text has them, are read back in their order.
pub parse_args-print :
    (as' : List PortArg)
    → AllPortArgs as'
    → length as' ≤ 4
    → parse_args (map print_arg as') no_options ≡ some (record no_options { port_args = as' })
parse_args-print as' h room = parse_args-prints as' no_options h (omega (arith, room))

-- ===== src/Control/Tests.antt =====
-- A command line by hand.
use vmodem.Prelude.{◌≡◌, [], ◌∷◌, map, some, none, arith}
use vmodem.Control.Args.{PortArg, no_options, parse_args}
use vmodem.Control.Args.Printed.{IsPortArg, print_arg, parse_args-print}

abbrev com1 : PortArg
com1 = record { first_com = 0; last_com = none; tcp_port = 23 }

abbrev others : PortArg
others = record { first_com = 1; last_com = some 3; tcp_port = 2323 }

com1-IsPortArg : IsPortArg com1
com1-IsPortArg = record {
  com_in = omega arith;
  range_in = λ l e. cc;
  port_set = omega arith;
  port_in = omega arith;
}

others-IsPortArg : IsPortArg others
others-IsPortArg = record {
  com_in = omega arith;
  range_in = λ l e. ground (arith, e);
  port_set = omega arith;
  port_in = omega arith;
}

parse_args-print_example :
    parse_args (map print_arg (com1 ∷ others ∷ [])) no_options
    ≡ some (record no_options { port_args = com1 ∷ others ∷ [] })
parse_args-print_example =
    parse_args-print (com1 ∷ others ∷ []) (com1-IsPortArg, (others-IsPortArg, tt)) (omega arith)

-- ===== src/At/Escape.antt =====
-- The escape sequence +++ and what data mode lets through.
use vmodem.Prelude.{ℕ, ◌≤◌, ◌<◌, ◌≡◌, ◌≢◌, refl, arith, true, false, List, [], ◌∷◌, if◌then◌else◌}
use vmodem.Mtcp.{Mtcp}
use vmodem.Port.{Ctx}
use vmodem.Net.{ticks_since}
use vmodem.At.Input.{is_online, count_plus, data_byte, at_input}

abbrev pub AllData : List ℕ → Type 0
AllData [] = Unit {0}
AllData (b ∷ bs) = (b ≢ b'+') × AllData bs

module _ {W : Type 0} (net : Mtcp W) (i : ℕ) where
  -- Bytes of an application, each with the time of its call; the result is the data that passes.
  unfoldable pub input_all : List (ℕ × ℕ) → Ctx W → List ℕ × Ctx W
  input_all [] c = ([], c)
  input_all ((now, b) ∷ bs) c =
      let (consumed, c') = at_input net i now b c in
      let (out, c'') = input_all bs c' in (if consumed then out else b ∷ out, c'')

  abbrev pub bytes_of : List (ℕ × ℕ) → List ℕ
  bytes_of [] = []
  bytes_of ((now, b) ∷ bs) = b ∷ bytes_of bs

  -- One data byte.
  input_data :
      (now b : ℕ) (c : Ctx W)
      → is_online c ≡ true
      → b ≢ b'+'
      → let (consumed, c') = at_input net i now b c in
        (consumed ≡ false) × (is_online c' ≡ true) × (c'.line.port ≡ c.line.port)
  unfolding at_input data_byte
  input_data now b c on ne = ground arith

  -- While the call is up, a text without '+' passes whole and in order, at whatever times its bytes
  -- come; the line stays online, and the port, its RX ring included, is not touched.
  input_all-data :
      (bs : List (ℕ × ℕ)) (c : Ctx W)
      → is_online c ≡ true
      → AllData (bytes_of bs)
      → let (out, c') = input_all bs c in
        (out ≡ bytes_of bs) × (is_online c' ≡ true) × (c'.line.port ≡ c.line.port)
  unfolding input_all
  input_all-data [] c on v = (refl, on, refl)
  input_all-data ((now, b) ∷ bs) c on v =
      let c' = (at_input net i now b c).1 in
      ground (arith, input_data now b c on v.0, input_all-data bs c')

  -- A '+' sooner than half a second after the last data is data: it passes, and is not counted. Three
  -- '+' after half a second without data, whatever the times between them, enter command mode; none of
  -- them reaches the network, the first two leave the line in data mode, and the connection stays as
  -- it is.
  pub input_all-escape :
      (t0 t1 t2 t3 : ℕ) (c : Ctx W)
      → is_online c ≡ true
      → c.line.at.plus_count ≡ 0
      → ticks_since c.line.at.last_tx_tick t0 < 9
      → 9 ≤ ticks_since c.line.at.last_tx_tick t1
      → let (early, c0) = input_all ((t0, b'+') ∷ []) c in
        let (out, c') = input_all ((t1, b'+') ∷ (t2, b'+') ∷ (t3, b'+') ∷ []) c in
        (early ≡ b'+' ∷ [])
        × (is_online c0 ≡ true)
        × (c0.line.at.plus_count ≡ 0)
        × (is_online (input_all ((t1, b'+') ∷ []) c).1 ≡ true)
        × (is_online (input_all ((t1, b'+') ∷ (t2, b'+') ∷ []) c).1 ≡ true)
        × (out ≡ [])
        × (c'.line.at.cmd_mode ≡ true)
        × (c'.line.at.plus_count ≡ 0)
        × (c'.line.port.mode ≡ c.line.port.mode)
        × (c'.line.port.sock ≡ c.line.port.sock)
  unfolding input_all at_input data_byte count_plus
  input_all-escape t0 t1 t2 t3 c on z soon g = ground arith

  -- A lone '+' after half a second without data is lost: it is consumed, and the byte after it
  -- passes without it. The application's stream misses the '+'.
  pub input_all-plus_lost :
      (t1 t2 b : ℕ) (c : Ctx W)
      → is_online c ≡ true
      → c.line.at.plus_count ≡ 0
      → 9 ≤ ticks_since c.line.at.last_tx_tick t1
      → b ≢ b'+'
      → let (out, c') = input_all ((t1, b'+') ∷ (t2, b) ∷ []) c in
        (out ≡ b ∷ []) × (is_online c' ≡ true) × (c'.line.at.plus_count ≡ 0)
  unfolding input_all at_input data_byte count_plus
  input_all-plus_lost t1 t2 b c on z g ne = ground arith

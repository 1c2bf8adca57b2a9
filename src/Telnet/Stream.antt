-- ===== src/Telnet/Stream.antt =====
-- What `telnet_filter` makes of a whole stream: the user data of a well-formed telnet stream.
use vmodem.Prelude.{
  ℕ, ◌≡◌, ◌≢◌, ◌⊎◌, refl, ap₂, ◌∙◌, arith, Option, none, some, List, [], ◌∷◌, ◌++◌, ◌==◌,
  if◌then◌else◌,
}
use vmodem.Mtcp.{Mtcp}
use vmodem.Telnet.{
  Iac, normal, in_sb, tel_iac, tel_will, tel_wont, tel_do, tel_dont, tel_sb, tel_se, sb_store,
  sb_finish, telnet_handle_option, handle_do, handle_will, filter_in, telnet_filter,
}

abbrev pub push : Option ℕ → List ℕ → List ℕ
push none out = out
push (some b) out = b ∷ out

-- The bytes that a run of the filter leaves for the ring buffer.
unfoldable pub filter_all : {W : Type 0} → Mtcp W → Option ℕ → Iac → List ℕ → W → List ℕ × Iac × W
filter_all net sock t [] w = ([], t, w)
filter_all net sock t (b ∷ bs) w =
    let (o, t', w') = telnet_filter net sock t b w in
    let (out, t'', w'') = filter_all net sock t' bs w' in (push o out, t'', w'')

-- The units of a telnet stream as RFC 854 has them.
pub data Token : Type 0 where
  user : ℕ → Token
  command : ℕ → Token
  option : ℕ → ℕ → Token
  subneg : List ℕ → Token

abbrev pub AllPlain : List ℕ → Type 0
AllPlain [] = Unit {0}
AllPlain (b ∷ bs) = (b ≢ tel_iac) × AllPlain bs

-- The codes that a unit may hold: a plain command is no IAC, no option command and no SB; the
-- body of a subnegotiation holds no 0xFF.
abbrev pub IsToken : Token → Type 0
IsToken (user b) = Unit {0}
IsToken (command c) =
    (c ≢ tel_iac) × (c ≢ tel_will) × (c ≢ tel_wont) × (c ≢ tel_do) × (c ≢ tel_dont) × (c ≢ tel_sb)
IsToken (option c o) = (c ≡ tel_will) ⊎ ((c ≡ tel_wont) ⊎ ((c ≡ tel_do) ⊎ (c ≡ tel_dont)))
IsToken (subneg body) = AllPlain body

abbrev pub AllTokens : List Token → Type 0
AllTokens [] = Unit {0}
AllTokens (k ∷ ks) = IsToken k × AllTokens ks

-- A user byte on the wire.
abbrev pub escape_byte : ℕ → List ℕ
escape_byte b = if b == 0xff then 0xff ∷ 0xff ∷ [] else b ∷ []

abbrev pub escape_all : List ℕ → List ℕ
escape_all [] = []
escape_all (b ∷ bs) = escape_byte b ++ escape_all bs

abbrev pub encode : Token → List ℕ
encode (user b) = escape_byte b
encode (command c) = tel_iac ∷ c ∷ []
encode (option c o) = tel_iac ∷ c ∷ o ∷ []
encode (subneg body) = tel_iac ∷ tel_sb ∷ (body ++ (tel_iac ∷ tel_se ∷ []))

abbrev pub encode_all : List Token → List ℕ
encode_all [] = []
encode_all (k ∷ ks) = encode k ++ encode_all ks

abbrev pub user_data : List Token → List ℕ
user_data [] = []
user_data (user b ∷ ks) = b ∷ user_data ks
user_data (command c ∷ ks) = user_data ks
user_data (option c o ∷ ks) = user_data ks
user_data (subneg body ∷ ks) = user_data ks

push-append : (o : Option ℕ) (xs ys : List ℕ) → push o (xs ++ ys) ≡ push o xs ++ ys
push-append none xs ys = refl
push-append (some b) xs ys = refl

user_data-cons :
    (k : Token) (ks : List Token) → user_data (k ∷ []) ++ user_data ks ≡ user_data (k ∷ ks)
user_data-cons (user b) ks = refl
user_data-cons (command c) ks = refl
user_data-cons (option c o) ks = refl
user_data-cons (subneg body) ks = refl

module _ {W : Type 0} (net : Mtcp W) (sock : Option ℕ) where
  -- How the stream is cut into `recv` calls does not matter.
  filter_all-append :
      (t : Iac) (xs ys : List ℕ) (w : W)
      → filter_all net sock t (xs ++ ys) w ≡ (
          let (out, t', w') = filter_all net sock t xs w in
          let (out', t'', w'') = filter_all net sock t' ys w' in (out ++ out', t'', w''))
  unfolding filter_all
  filter_all-append t [] ys w = refl
  filter_all-append t (b ∷ xs) ys w =
      let (o, t', w') = telnet_filter net sock t b w in
      rw (filter_all-append t' xs ys w', push-append)

  filter_in_sb :
      (t : Iac) (b : ℕ) (w : W)
      → t.iac_state ≡ in_sb
      → b ≢ tel_iac
      → let (o, t', w') = telnet_filter net sock t b w in (o ≡ none) × (t'.iac_state ≡ in_sb)
  unfolding telnet_filter filter_in sb_store
  filter_in_sb t b w e p = ground arith

  -- Inside a subnegotiation plain bytes are swallowed.
  filter_all-body :
      (t : Iac) (body : List ℕ) (w : W)
      → t.iac_state ≡ in_sb
      → AllPlain body
      → let (out, t', w') = filter_all net sock t body w in (out ≡ []) × (t'.iac_state ≡ in_sb)
  unfolding filter_all
  filter_all-body t [] w e p = (refl, e)
  filter_all-body t (b ∷ body) w e p =
      let (o, t', w') = telnet_filter net sock t b w in
      ground (arith, filter_in_sb t b w e p.0, filter_all-body t' body w')

  handle_option-state :
      (t : Iac) (c o : ℕ) (w : W)
      → (telnet_handle_option net sock t c o w).0.iac_state ≡ t.iac_state
  unfolding telnet_handle_option handle_do handle_will
  handle_option-state t c o w = ground arith

  finish-normal :
      (t : Iac) (w : W)
      → t.iac_state ≡ in_sb
      → let (out, t', w') = filter_all net sock t (tel_iac ∷ tel_se ∷ []) w in
        (out ≡ []) × (t'.iac_state ≡ normal)
  unfolding filter_all telnet_filter filter_in sb_finish
  finish-normal t w e = ground arith

  -- The rest of a subnegotiation.
  filter_all-body_end :
      (t : Iac) (body : List ℕ) (w : W)
      → t.iac_state ≡ in_sb
      → AllPlain body
      → let (out, t', w') = filter_all net sock t (body ++ (tel_iac ∷ tel_se ∷ [])) w in
        (out ≡ []) × (t'.iac_state ≡ normal)
  filter_all-body_end t body w e p =
      let (out, t', w') = filter_all net sock t body w in
      rw (filter_all-append t body (tel_iac ∷ tel_se ∷ []) w)
        (ground (arith, filter_all-body t body w e p, finish-normal t' w'))

  -- One unit, from the normal state: its user byte, and back to the normal state.
  filter_all-encode :
      (t : Iac) (k : Token) (w : W)
      → t.iac_state ≡ normal
      → IsToken k
      → let (out, t', w') = filter_all net sock t (encode k) w in
        (out ≡ user_data (k ∷ [])) × (t'.iac_state ≡ normal)
  unfolding filter_all telnet_filter filter_in
  filter_all-encode t (user b) w e v = ground arith
  filter_all-encode t (command c) w e v = ground arith
  filter_all-encode t (option c o) w e v = ground arith
  filter_all-encode t (subneg body) w e v =
      let t' = (telnet_filter net sock (telnet_filter net sock t tel_iac w).1 tel_sb w).1 in
      ground (arith, filter_all-body_end t' body w)

  -- A well-formed telnet stream, met in the normal state, leaves
  -- exactly its user bytes, in order and with each doubled 0xFF made one, and ends in the normal
  -- state.
  pub filter_all-encode_all :
      (t : Iac) (ks : List Token) (w : W)
      → t.iac_state ≡ normal
      → AllTokens ks
      → let (out, t', w') = filter_all net sock t (encode_all ks) w in
        (out ≡ user_data ks) × (t'.iac_state ≡ normal)
  unfolding filter_all
  filter_all-encode_all t [] w e v = (refl, e)
  filter_all-encode_all t (k ∷ ks) w e v =
      let (out, t', w') = filter_all net sock t (encode k) w in
      let here = filter_all-encode t k w e v.0 in
      let rest = filter_all-encode_all t' ks w' here.1 v.1 in
      rw (filter_all-append t (encode k) (encode_all ks) w)
        (ap₂ ◌++◌ here.0 rest.0 ∙ user_data-cons k ks, rest.1)

-- ===== src/Vsocket.antt =====
-- The BSD-style sockets of src/lib/vsocket.c, for programs that run beside the resident one. They reach
-- it by INT 2Fh; `V` is the state of what answers there and of the machine.
pub mod Bytes
pub mod Address
pub mod Api
pub mod Sending
pub mod Midnight
pub mod Resident
mod Tests
use vmodem.Prelude.{
  ℕ, zero, suc, ◌+◌, ◌-◌, ◌*◌, ◌/◌, ◌%◌, ◌^◌, Bool, true, false, not, ◌&&◌, ◌||◌, Option, none,
  some, List, [], ◌∷◌, ltb, leb, ◌==◌, if◌then◌else◌, length, get_or, set, take, drop, min,
}
use vmodem.Vsocket.Api.{MuxApi}
use vmodem.Vsocket.Bytes.{ntohs}
use vmodem.Vsocket.Address.{inet_addr, inaddr_none, pack}
use vmodem.Mux.Names.{copy_name, max_name}

-- The library's variables: `vsock_allocated`, `vsock_errno`, `h_errno`, `vsock_connect_timeout`.
pub record Client (V : Type 0) : Type 0 where
  pub mux : V
  pub allocated : List Bool
  pub errno : ℕ
  pub h_errno : ℕ
  pub connect_timeout : ℕ

abbrev pub fd_base : ℕ
fd_base = 128

abbrev pub max_vsock : ℕ
max_vsock = 4

module _ {V : Type 0} where
  abbrev pub with_errno : ℕ → Client V → Client V
  with_errno e c = record c { errno = e }

  abbrev pub with_mux : V → Client V → Client V
  with_mux v c = record c { mux = v }

  -- Descriptors below 0 are refused like those below 128.
  unfoldable pub fd_to_handle : ℕ → Client V → Option ℕ
  fd_to_handle fd c =
      let h = fd - fd_base in
      if ltb fd fd_base || leb max_vsock h || not (get_or c.allocated h false) then none else some h

  abbrev pub release : ℕ → Client V → Client V
  release h c = record c { allocated = set c.allocated h false }

-- `total > 0 ? total : -1`
abbrev pub partial : ℕ → Option ℕ
partial total = if ltb 0 total then some total else none

module _ {V : Type 0} (api : MuxApi V) where
  -- `none` is -1 here and below.
  unfoldable pub socket : ℕ → ℕ → Client V → Option ℕ × Client V
  socket domain type c =
      let (res, v) = api.alloc c.mux in
      let h = res % 256 in
      if not (domain == 2) || not (type == 1)
      then (none, with_errno 97 c)
      else if res == 0xff
      then (none, with_errno 105 (with_mux v c))
      else (some (h + fd_base), record (with_mux v c) { allocated = set c.allocated h true })

  -- The loop of `connect`, `none` where the rounds are used up.
  unfoldable pub connect_loop : ℕ → ℕ → ℕ → Client V → Option (Option ℕ × Client V)
  connect_loop zero h deadline c = none
  connect_loop (suc fuel) h deadline c =
      let (st, v) = api.status h (api.poll (api.idle c.mux)) in
      let c1 = with_mux v c in
      let rest = connect_loop fuel h deadline c1 in
      if st == 2
      then some (some 0, c1)
      else if st == 4
      then some (none, with_errno 111 c1)
      else if leb deadline (api.tick v)
      then some (none, release h (with_errno 110 (with_mux (api.close h v) c1)))
      else rest

  -- The family, the port in network order and the four bytes of the address.
  unfoldable pub connect : ℕ → ℕ → ℕ → ℕ → List ℕ → Client V → Option (Option ℕ × Client V)
  unfolding fd_to_handle connect_loop
  connect fuel fd family port ip c = elim (fd_to_handle fd c) [
    | none ↦ some (none, with_errno 9 c)
    | some h ↦
        let (res, v) = api.connect h ip (ntohs port) c.mux in
        let c1 = with_mux v c in
        let deadline = (api.tick v + c.connect_timeout * 18) % 2 ^ 32 in
        if not (family == 2)
        then some (none, with_errno 97 c)
        else if not (res == 0)
        then some (none, with_errno 111 c1)
        else connect_loop fuel h deadline c1
  ]

  -- A round in which nothing was taken: the result, or the state after the wait.
  unfoldable pub send_wait : ℕ → ℕ → ℕ → Client V → Option (Option ℕ) × Client V
  send_wait h total retries c =
      let (st, v) = api.status h c.mux in
      let c1 = with_mux v c in
      let c2 = with_mux (api.poll v) c in
      let c3 = with_mux (api.idle (api.poll v)) c in
      if st == 4 || st == 3
      then (some (partial total), with_errno 104 c1)
      else if ltb 2000 (retries + 1)
      then (some (partial total), with_errno 110 c3)
      else if ltb 200 (retries + 1)
      then (none, c3)
      else (none, c2)

  -- `while (total < len)`: `p` is what is left of the caller's bytes.
  unfoldable pub send_loop : ℕ → ℕ → List ℕ → ℕ → ℕ → Client V → Option (Option ℕ × Client V)
  unfolding send_wait
  send_loop fuel h [] total retries c = some (some total, with_mux (api.poll c.mux) c)
  send_loop zero h (b ∷ p) total retries c = none
  send_loop (suc fuel) h (b ∷ p) total retries c =
      let (n, v) = api.send h (take 1024 (b ∷ p)) c.mux in
      let c1 = with_mux v c in
      elim (ltb 0 n) [
        | true ↦ send_loop fuel h (drop n (b ∷ p)) (total + n) 0 c1
        | false ↦
            let (over, c2) = send_wait h total retries c1 in
            elim over [
              | some r ↦ some (r, c2)
              | none ↦ send_loop fuel h (b ∷ p) total (retries + 1) c2
            ]
      ]

  unfoldable pub send : ℕ → ℕ → List ℕ → Client V → Option (Option ℕ × Client V)
  unfolding fd_to_handle send_loop
  send fuel fd buf c = elim (fd_to_handle fd c) [
    | none ↦ some (none, with_errno 9 c)
    | some h ↦ send_loop fuel h buf 0 0 c
  ]

  -- The bytes received: none at all for 0.
  unfoldable pub recv : ℕ → ℕ → Client V → Option (List ℕ) × Client V
  unfolding fd_to_handle
  recv fd len c = elim (fd_to_handle fd c) [
    | none ↦ (none, with_errno 9 c)
    | some h ↦
        let (bs, v) = api.recv h (min (len % 65536) 256) (api.poll c.mux) in
        let (st, v1) = api.status h v in
        if ltb 0 (length bs)
        then (some bs, with_mux v c)
        else if st == 3 || st == 4
        then (none, with_errno 1 (with_mux v1 c))
        else (some [], with_mux v1 c)
  ]

  unfoldable pub closesocket : ℕ → Client V → Option ℕ × Client V
  unfolding fd_to_handle
  closesocket fd c = elim (fd_to_handle fd c) [
    | none ↦ (none, with_errno 9 c)
    | some h ↦ (some 0, release h (with_mux (api.close h c.mux) c))
  ]

  unfoldable pub data_ready : ℕ → Client V → ℕ × Client V
  unfolding fd_to_handle
  data_ready fd c = elim (fd_to_handle fd c) [
    | none ↦ (0, with_errno 9 c)
    | some h ↦ let (r, v) = api.recv_ready h (api.poll c.mux) in (r, with_mux v c)
  ]

  unfoldable pub dns_flush : List ℕ → Client V → Client V
  unfolding copy_name
  dns_flush name c = with_mux (api.dns_flush (copy_name max_name name) c.mux) c

  -- `h_name` and the address of the entry.
  abbrev found : List ℕ → ℕ → Client V → Option (List ℕ × ℕ) × Client V
  found name addr c = (some (copy_name max_name name, addr), record c { h_errno = 0 })

  abbrev ip_value : List ℕ → ℕ
  ip_value ip = pack (get_or ip 0 0) (get_or ip 1 0) (get_or ip 2 0) (get_or ip 3 0)

  abbrev not_found : Client V → Option (List ℕ × ℕ) × Client V
  not_found c = (none, record c { h_errno = 1 })

  -- The wait for a pending answer.
  unfoldable pub resolve_loop : ℕ → List ℕ → ℕ → Client V → Option (Option (List ℕ × ℕ) × Client V)
  unfolding pack copy_name
  resolve_loop zero name deadline c = none
  resolve_loop (suc fuel) name deadline c =
      let (st, ip, v) = api.resolve_result (api.poll (api.idle c.mux)) in
      let c1 = with_mux v c in
      let rest = resolve_loop fuel name deadline c1 in
      if not (ltb (api.tick c.mux) deadline)
      then some (not_found c)
      else if st == 2
      then some (found name (ip_value ip) c1)
      else if st == 3
      then some (not_found c1)
      else rest

  unfoldable pub gethostbyname : ℕ → List ℕ → Client V → Option (Option (List ℕ × ℕ) × Client V)
  unfolding inet_addr resolve_loop pack copy_name
  gethostbyname fuel name c =
      let addr = inet_addr name in
      let (st, v) = api.resolve (copy_name max_name name) c.mux in
      let (st', ip, v') = api.resolve_result v in
      if not (addr == inaddr_none)
      then some (found name addr c)
      else if st == 2
      then some (found name (ip_value ip) (with_mux v' c))
      else if not (st == 1)
      then some (not_found (with_mux v c))
      else resolve_loop fuel name ((api.tick v + 273) % 2 ^ 32) (with_mux v c)

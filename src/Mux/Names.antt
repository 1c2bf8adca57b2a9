-- ===== src/Mux/Names.antt =====
-- The names service of the multiplex interface: MUX_SOCK_RESOLVE, MUX_SOCK_RESOLVE_RESULT and
-- MUX_SOCK_DNS_FLUSH of src/int8.c. The caller's bytes at ES:BX are an argument.
use vmodem.Prelude.{ℕ, zero, suc, true, false, List, [], ◌∷◌, ◌==◌, if◌then◌else◌, get_or, drop}
use vmodem.Mtcp.Outgoing.{Outgoing}
use vmodem.System.{
  DnsState, dns_idle, dns_pending, dns_ok, dns_error, System, dns_code, sys_world, with_sys_world,
  answer,
}

-- `for (i = 0; i < n && src[i] != 0; i++)`: the text that is copied.
unfoldable pub copy_name : ℕ → List ℕ → List ℕ
copy_name zero src = []
copy_name (suc n) [] = []
copy_name (suc n) (c ∷ src) = let rest = copy_name n src in if c == 0 then [] else c ∷ rest

abbrev pub max_name : ℕ
max_name = 63

-- The bytes of an address over the first four of the caller's.
abbrev pub put_ip : List ℕ → List ℕ → List ℕ
put_ip ip buf = get_or ip 0 0 ∷ get_or ip 1 0 ∷ get_or ip 2 0 ∷ get_or ip 3 0 ∷ drop 4 buf

module _ {W : Type 0} where
  -- A new state of the request, which is also the result.
  abbrev pub dns_result : DnsState → System W → System W
  dns_result st s = answer (dns_code st) (record s { dns = record (s.dns) { state = st } })

module _ {W : Type 0} (out : Outgoing W) where
  unfoldable pub sock_resolve : List ℕ → System W → System W
  unfolding copy_name
  sock_resolve buf s =
      let name = copy_name max_name buf in
      let (rc, ip, w) = out.resolve name true (sys_world s) in
      let s1 =
        with_sys_world w
          (record s { dns = record (s.dns) { hostname = name; resolved_ip = ip } }) in
      if rc == 0
      then dns_result dns_ok s1
      else if rc == 1
      then dns_result dns_pending s1
      else dns_result dns_error s1

  -- A pending request whose query is over is looked up in the cache.
  unfoldable pub look_up : System W → System W
  look_up s =
      let (rc, ip, w) = out.resolve s.dns.hostname false (sys_world s) in
      let s1 = with_sys_world w (record s { dns = record (s.dns) { resolved_ip = ip } }) in
      if out.is_query_pending (sys_world s)
      then s
      else record s1 { dns = record (s1.dns) { state = if rc == 0 then dns_ok else dns_error } }

  -- The caller's buffer after the call, and the state.
  unfoldable pub sock_resolve_result : List ℕ → System W → List ℕ × System W
  unfolding look_up
  sock_resolve_result buf s =
      let s1 = elim (s.dns.state) as (λ x. System W) [
        | dns_pending ↦ look_up s
        | dns_idle ↦ s
        | dns_ok ↦ s
        | dns_error ↦ s
      ] in
      (
        elim (s1.dns.state) as (λ x. List ℕ) [
          | dns_ok ↦ put_ip s1.dns.resolved_ip buf
          | dns_idle ↦ buf
          | dns_pending ↦ buf
          | dns_error ↦ buf
        ],
        answer (dns_code s1.dns.state) s1,
      )

  unfoldable pub dns_flush : List ℕ → System W → System W
  unfolding copy_name
  dns_flush buf s =
      answer 0 (with_sys_world (out.delete_from_cache (copy_name max_name buf) (sys_world s)) s)

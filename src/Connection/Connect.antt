-- ===== src/Connection/Connect.antt =====
-- `wm_https_connect_ipv4` of BearTLS/wm_https.c.
use bear_tls.Base.{ℕ, ◌+◌, ◌==◌, Option, none, some, List, if◌then◌else◌}
use bear_tls.Connection.Platform.{Platform, World, HttpsResult, set_wsa_error, disconnect}

abbrev pub wsahost_not_found : ℕ
wsahost_not_found = 11001

abbrev pub https_timeout_ms : ℕ
https_timeout_ms = 5000

module _ (p : Platform) where
  -- The socket, or `none` for the return of 0; the error goes to the field `wsa_error` of a result
  -- that is there.
  pub record Connected : Type 0 where
    pub sock : Option ℕ
    pub result : Option HttpsResult
    pub world : World p

  -- `*out_wsa_error = WSAGetLastError()`, with the substitute for a name that is not found.
  unfoldable pub name_error : p.Net → ℕ
  name_error net = if p.wsa_error net == 0 then wsahost_not_found else p.wsa_error net

  -- The address of a dotted number, or of a name.
  unfoldable pub resolve : p.Net → List ℕ → Option ℕ × p.Net
  resolve net host = elim (p.inet_addr host) [
    | some addr ↦ (some addr, net)
    | none ↦ p.gethostbyname net host
  ]

  -- From the open socket `s` on; `connect` sees the port. An error of the receive timeout is
  -- dropped.
  unfoldable pub connect_socket : ℕ → ℕ → List ℕ → Option HttpsResult → World p → Connected
  connect_socket s port host result w =
      let (found, net1) = resolve w.net host in
      let w1 : World p = record w { net = net1 } in
      elim found [
        | none ↦ record {
          sock = none;
          result = set_wsa_error (name_error net1) result;
          world = disconnect p (some s) w1;
        }
        | some addr ↦
            let (joined, net2) = p.connect net1 s addr port in
            let w2 : World p = record w { net = net2 } in
            let (timed, net3) = p.set_timeout net2 s https_timeout_ms in
            if joined
            then record {
              sock = some s;
              result = if timed then result else set_wsa_error 0 result;
              world = record w { net = net3 };
            }
            else record {
              sock = none;
              result = set_wsa_error (p.wsa_error net2) result;
              world = disconnect p (some s) w2;
            }
      ]

  unfoldable pub connect_ipv4 : List ℕ → ℕ → Option HttpsResult → World p → Connected
  connect_ipv4 host port result w =
      let cleared = set_wsa_error 0 result in
      let (started, net1) = p.startup w.net in
      let (opened, net2) = p.socket net1 in
      if started
      then elim opened [
        | none ↦ record {
          sock = none;
          result = set_wsa_error (p.wsa_error net2) cleared;
          world = record w { net = p.cleanup net2 };
        }
        | some s ↦
            connect_socket s port host cleared
              (record w { net = net2; startups = w.startups + 1; sockets = w.sockets + 1 })
      ]
      else record {
        sock = none;
        result = set_wsa_error (p.wsa_error net1) cleared;
        world = record w { net = net1 };
      }

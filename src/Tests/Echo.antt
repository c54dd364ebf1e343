-- ===== src/Tests/Echo.antt =====
-- A platform for BearTLS/wm_https.c that is simple enough to run: an engine that holds what it
-- accepted and what it has to deliver, and is always ready.
use bear_tls.Base.{
  ℕ, ◌≡◌, ◌≤◌, ◌<◌, ◌⊎◌, inr, refl, ap, Bool, true, false, ◌+◌, List, [], ◌∷◌, ◌++◌, none, some,
  arith, length, take, drop, codes,
}
use bear_tls.CertStore.Interface.{RootStore}
use bear_tls.Connection.Platform.{has, Platform}
use bear_tls.Connection.Streams.{Streams}
use bear_tls.Connection.Progress.{Progress}

-- What was accepted, what was delivered, and what is to be delivered.
pub record Echo : Type 0 where
  pub taken : List ℕ
  pub given : List ℕ
  pub waiting : List ℕ

abbrev pub greeting : List ℕ
greeting = codes "HTTP/1.1 200 OK"

abbrev pub fresh_echo : Echo
fresh_echo = record { taken = []; given = []; waiting = greeting }

abbrev pub echo_state : List ℕ → ℕ
echo_state [] = 9
echo_state (c ∷ cs) = 24

-- A certificate store that keeps two blocks from its first use on.
abbrev pub small_init : Bool → ℕ → Bool × ℕ × Bool × ℕ
small_init true net = (true, 0, true, net)
small_init false net = (true, 2, true, net)

abbrev pub small_tables : Bool → ℕ
small_tables true = 2
small_tables false = 0

pub small_tables_bound : (s : Bool) → small_tables s ≤ 2
small_tables_bound true = omega arith
small_tables_bound false = omega arith

pub small_tables-init :
    (s : Bool) (net : ℕ) → small_tables (small_init s net).2 ≡ small_tables s + (small_init s net).1
small_tables-init true net = refl
small_tables-init false net = refl

abbrev pub small_store : RootStore ℕ
small_store = record {
  Store = Bool;
  Anchors = ℕ;
  init = small_init;
  anchors = λ s. 0;
  tables = small_tables;
  tables_bound = small_tables_bound;
  tables-init = small_tables-init;
}

-- The platform over a certificate store.
abbrev pub echo_with : RootStore ℕ → Platform
echo_with s = record {
  Engine = Echo;
  Net = ℕ;
  roots = s;
  current_state = λ e. echo_state e.waiting;
  last_error = λ e. 0;
  sendrec_buf = λ e. [];
  sendrec_ack = λ e n. e;
  recvrec_len = λ e. 0;
  recvrec_ack = λ e bytes. e;
  sendapp_len = λ e. 4;
  sendapp_ack = λ e bytes. record e { taken = e.taken ++ bytes };
  flush = λ e. e;
  recvapp_buf = λ e. e.waiting;
  recvapp_ack = λ e n. record e { given = e.given ++ take n e.waiting; waiting = drop n e.waiting };
  close = λ e. e;
  init_full = λ a. fresh_echo;
  set_versions = λ e. e;
  set_buffer = λ e. e;
  reset = λ e name. (true, e);
  wsa_error = λ n. 0;
  startup = λ n. (true, n);
  socket = λ n. (some 5, n);
  inet_addr = λ host. none;
  gethostbyname = λ n host. (some 77, n);
  connect = λ n s addr port. (true, n);
  set_timeout = λ n s ms. (true, n);
  send = λ n s bytes. (some (length bytes), n);
  recv = λ n s len. (some [], n);
  closesocket = λ n s. n;
  cleanup = λ n. n;
  heap_alloc = λ n. (true, n);
  heap_free = λ n. n;
}

abbrev pub all_at_once : Platform
all_at_once = echo_with small_store

abbrev pub echo_streams_with : (s : RootStore ℕ) → Streams (echo_with s)
echo_streams_with s = record {
  accepted = λ e. e.taken;
  delivered = λ e. e.given;
  accepted-sendrec_ack = λ e n. refl;
  accepted-recvrec_ack = λ e bytes. refl;
  accepted-flush = λ e. refl;
  accepted-sendapp_ack = λ e bytes on some_bytes room. refl;
  delivered-sendrec_ack = λ e n. refl;
  delivered-recvrec_ack = λ e bytes. refl;
  delivered-recvapp_ack = λ e n on some_bytes there. refl;
}

-- The engine exchanges no records, so it has no work.
pub sends_nothing : (n : ℕ) → some 0 ≡ some n → 0 < n → 0 < 0
sends_nothing n e pos =
    let same : 0 ≡ n = ap (λ o. elim o [ none ↦ 0 | some k ↦ k ]) e in omega arith

pub no_records : (cs : List ℕ) → has (echo_state cs) 2 ≡ true → 0 < 0
no_records [] e = cc
no_records (c ∷ cs) e = cc

pub no_reads : (cs : List ℕ) → has (echo_state cs) 4 ≡ true → 0 < 0
no_reads [] e = cc
no_reads (c ∷ cs) e = cc

pub takes :
    (cs : List ℕ)
    → has (echo_state cs) 1 ≡ false
    → (has (echo_state cs) 2 ≡ true)
      ⊎ ((has (echo_state cs) 4 ≡ true) ⊎ ((has (echo_state cs) 8 ≡ true) × (0 < 4)))
takes [] e = cc
takes (c ∷ cs) e = inr (inr (refl, omega arith))

pub gives :
    (cs : List ℕ)
    → has (echo_state cs) 1 ≡ false
    → (has (echo_state cs) 2 ≡ true)
      ⊎ ((has (echo_state cs) 4 ≡ true) ⊎ ((has (echo_state cs) 16 ≡ true) × (0 < length cs)))
gives [] e = cc
gives (c ∷ cs) e = inr (inr (refl, omega arith))

abbrev pub echo_progress_with : (s : RootStore ℕ) → Progress (echo_with s)
echo_progress_with s = record {
  work = λ e net. 0;
  cost = 0;
  farewell = 0;
  start = 0;
  work-send = λ e net sock bytes. omega arith;
  work-sendrec_ack = λ e net sock n sent pos. sends_nothing n sent pos;
  work-recv = λ e net sock want. omega arith;
  work-recvrec_ack = λ e net sock want x bytes got. cc;
  work-flush = λ e net bytes. omega arith;
  work-recvapp_ack = λ e net n. omega arith;
  work-close = λ e net. omega arith;
  work-reset = λ a net name. omega arith;
  sendrec_buf-pos = λ e wants. no_records e.waiting wants;
  recvrec_len-pos = λ e wants. no_reads e.waiting wants;
  offers = λ e alive. takes e.waiting alive;
  wants = λ e alive. gives e.waiting alive;
}

abbrev pub echo_streams : Streams all_at_once
echo_streams = echo_streams_with small_store

abbrev pub echo_progress : Progress all_at_once
echo_progress = echo_progress_with small_store

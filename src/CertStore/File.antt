-- ===== src/CertStore/File.antt =====
-- `wm_cert_store_read_file` of BearTLS/wm_cert_store.c, and what the certificate store uses of the
-- system.
use bear_tls.Base.{
  ℕ, ◌+◌, ◌-◌, ◌*◌, ◌==◌, ◌||◌, Bool, Option, none, some, List, if◌then◌else◌, ltb, length,
}

-- A file is open or not, so its handle is left out; a read gives the bytes that it read, or `none`
-- for a failure. `sizeof_trust_anchor` is the size of the TLS library's struct, and
-- `get_module_file_name` is the call for the module of the library.
pub record System : Type 1 where
  pub State : Type 0
  pub create_file : State → List ℕ → Bool × State
  pub get_file_size : State → ℕ
  pub read_bytes : State → ℕ → Option (List ℕ) × State
  pub close_handle : State → State
  pub heap_alloc : State → ℕ → Bool × State
  pub heap_free : State → State
  pub sizeof_trust_anchor : ℕ
  pub get_module_file_name : List ℕ → ℕ → ℕ × List ℕ

-- `WM_CERT_FILE_MAX_BYTES`
abbrev pub cert_file_max_bytes : ℕ
cert_file_max_bytes = 512 * 1024

module _ (sys : System) where
  -- The system, with the number of files that are open and of blocks that are allocated.
  pub record World : Type 0 where
    pub state : sys.State
    pub files : ℕ
    pub blocks : ℕ

  abbrev pub closed : World → World
  closed w = record w { state = sys.close_handle w.state; files = w.files - 1 }

  abbrev pub freed : World → World
  freed w = record w { state = sys.heap_free w.state; blocks = w.blocks - 1 }

  -- What a read leaves: the `*out_len` bytes of the block that the caller gets, if any.
  abbrev pub FileRead : Type 0
  FileRead = Option (List ℕ) × World

  -- From the allocated block of an open file on.
  unfoldable pub read_block : ℕ → World → FileRead
  read_block size w =
      let (got, state) = sys.read_bytes w.state size in
      let w' : World = record w { state = state } in
      elim got [
        | none ↦ (none, closed (freed w'))
        | some bytes ↦
            if length bytes == size then (some bytes, closed w') else (none, closed (freed w'))
      ]

  -- From the open file on.
  unfoldable pub read_open : World → FileRead
  read_open w =
      let size = sys.get_file_size w.state in
      let (got, state) = sys.heap_alloc w.state (size + 1) in
      if (size == 0xffff_ffff) || (size == 0) || ltb cert_file_max_bytes size
      then (none, closed w)
      else if got
      then read_block size (record w { state = state; blocks = w.blocks + 1 })
      else (none, closed (record w { state = state }))

  -- `out_len` is not null.
  unfoldable pub read_file : List ℕ → World → FileRead
  read_file path w =
      let (opened, state) = sys.create_file w.state path in
      if opened
      then read_open (record w { state = state; files = w.files + 1 })
      else (none, record w { state = state })

-- ===== src/Seeder.antt =====
-- The seeder of the random generator, BearTLS/bearssl_wince_stub.c: `wince_seed` and
-- `br_prng_seeder_system`.
pub mod Layout
use bear_tls.Base.{
  ℕ, zero, suc, ◌+◌, ◌*◌, ◌/◌, ◌%◌, ◌^◌, ◌>>=◌, Option, none, some, List, [], ◌∷◌, bit_and, take,
  replicate, memcpy, store, codes,
}

-- What the seeder asks the system for; `system_time` has the bytes of a `SYSTEMTIME`, and the
-- others are `DWORD`s.
pub record Readings : Type 0 where
  pub system_time : List ℕ
  pub low_date_time : ℕ
  pub high_date_time : ℕ
  pub tick_count : ℕ
  pub process_id : ℕ
  pub thread_id : ℕ

abbrev pub seed_size : ℕ
seed_size = 64

-- The bytes of a `DWORD`, the lowest first.
unfoldable pub dword_bytes : ℕ → List ℕ
dword_bytes v = v % 256 ∷ (v / 256) % 256 ∷ (v / 65536) % 256 ∷ (v / 16777216) % 256 ∷ []

-- `(unsigned char)(tc + i * 37 + (ft.dwLowDateTime >> (i & 7)))`
unfoldable pub mixed_byte : Readings → ℕ → ℕ
mixed_byte r i = ((r.tick_count + i * 37 + r.low_date_time / 2 ^ bit_and i 7) % 2 ^ 32) % 256

-- The loop over `i`, with `rounds` left; `none` is a memory fault.
unfoldable pub seed_loop : ℕ → Readings → List ℕ → ℕ → Option (List ℕ)
seed_loop zero r seed i = some seed
seed_loop (suc rounds) r seed i =
    store seed i (mixed_byte r i) >>= λ mixed. seed_loop rounds r mixed (i + 1)

-- The array `seed` when it goes to the generator.
unfoldable pub make_seed : Readings → Option (List ℕ)
make_seed r = memcpy (replicate seed_size 0) 0 (dword_bytes r.low_date_time) >>= λ seed.
    memcpy seed 4 (dword_bytes r.high_date_time) >>= λ seed.
    memcpy seed 8 (dword_bytes r.tick_count) >>= λ seed.
    memcpy seed 12 (dword_bytes r.process_id) >>= λ seed.
    memcpy seed 16 (dword_bytes r.thread_id) >>= λ seed.
    memcpy seed 20 (take 32 r.system_time) >>= λ seed. seed_loop 32 r seed 32

-- `hmac_drbg_update` is the TLS library's update of its generator; `ctx` is `none` where it or
-- what it points to is null. The
-- return value and the generator after the call.
unfoldable pub wince_seed :
    {Drbg : Type 0} → (Drbg → List ℕ → Drbg) → Readings → Option Drbg → Option (ℕ × Option Drbg)
wince_seed hmac_drbg_update r none = some (0, none)
wince_seed hmac_drbg_update r (some rc) =
    make_seed r >>= λ seed. some (1, some (hmac_drbg_update rc seed))

-- The name that is stored where `name` is not null.
unfoldable pub prng_seeder_system : Option (List ℕ) → Option (List ℕ)
prng_seeder_system none = none
prng_seeder_system (some name) = some (codes "wince-basic")

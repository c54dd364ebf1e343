-- ===== src/Seeder/Layout.antt =====
-- The 64 bytes that `wince_seed` of BearTLS/bearssl_wince_stub.c hands to the generator.
use bear_tls.Base.{ℕ, zero, suc, ◌+◌, List, [], ◌∷◌, ◌++◌}
use bear_tls.Seeder.{Readings, dword_bytes, mixed_byte}

-- The mixed bytes of `n` offsets from `i` on.
abbrev pub mixed_bytes : Readings → ℕ → ℕ → List ℕ
mixed_bytes r i zero = []
mixed_bytes r i (suc n) = mixed_byte r i ∷ mixed_bytes r (i + 1) n

-- The first 20 bytes of the seed.
abbrev pub numbers : Readings → List ℕ
numbers r =
    dword_bytes r.low_date_time
    ++ (dword_bytes r.high_date_time
        ++ (dword_bytes r.tick_count ++ (dword_bytes r.process_id ++ dword_bytes r.thread_id)))

-- ===== src/CertStore/Filling.antt =====
-- Filling the certificate store (BearTLS/wm_cert_store.c): every write to the tables is inside
-- them, and the loops end.
use bear_tls.Base.{
  ℕ, zero, suc, ◌+◌, ◌≤◌, ◌<◌, ◌≡◌, refl, ap, ◌∙◌, ◌==◌, Bool, true, false, Bool-cases,
  Option-cases, some, List, [], ◌∷◌, arith, ltb, ltb→lt, length, take, drop, length-drop, inl, inr,
  All, if◌then◌else◌,
}
use bear_tls.Base64.{decode_b64}
use bear_tls.CertStore.Pem.{begin_marker, end_marker, find_text}
use bear_tls.CertStore.Search.{marker_inside}
use bear_tls.CertStore.Anchor.{Decoder, Slot}
use bear_tls.CertStore.Name.{Addressable}
use bear_tls.CertStore.Build.{build_anchor_lem}
use bear_tls.CertStore.Load.{
  Table, set_slot, add_root, add_decoded, load_loop, roots_loop, cert_der_max_bytes,
}

set_slot_total :
    (slots : List Slot) (i : ℕ) (s : Slot)
    → i < length slots
    → (out : List Slot) × (set_slot slots i s ≡ some out) × (length out ≡ length slots)
unfolding set_slot
set_slot_total [] i s h = absurd (omega arith)
set_slot_total (x ∷ slots) zero s h = (s ∷ slots, refl, refl)
set_slot_total (x ∷ slots) (suc i) s h =
    let (out, e, l) = set_slot_total slots i s (omega arith) in
    (x ∷ out, rw (e, set_slot) refl, ap suc l)

-- The tables have `capacity` entries, and the counted ones are the first.
abbrev pub Fits : ℕ → Table → Type 0
Fits capacity t = (length t.slots ≡ capacity) × (t.next ≡ t.count) × (t.count ≤ capacity)

module _ (d : Decoder) (small : (der : List ℕ) → All Addressable (d.dn_chunks der)) where
  add_root-Fits :
      (capacity : ℕ) (der : List ℕ) (t : Table)
      → Fits capacity t
      → t.next < capacity
      → (b : Bool) × (t' : Table) × (add_root d der t ≡ some (b, t')) × Fits capacity t'
  unfolding add_root
  add_root-Fits capacity der t (l, n, c) room =
      let (b, e, z, how) = build_anchor_lem d der (small der) in
      let (slots, f, l') = set_slot_total t.slots t.next b.1 (omega arith) in
      elim (Bool-cases b.0) [
        | inl good ↦ (
          true,
          record { slots = slots; next = t.next + 1; count = t.count + 1 },
          rw (e, add_root, f, good) refl,
          (l' ∙ l, omega arith, omega arith),
        )
        | inr bad ↦
            (false, record t { slots = slots }, rw (e, add_root, f, bad) refl, (l' ∙ l, n, c))
      ]

  add_decoded-Fits :
      (capacity : ℕ) (der : List ℕ) (t : Table)
      → Fits capacity t
      → t.next < capacity
      → (b : Bool) × (t' : Table) × (add_decoded d der t ≡ some (b, t')) × Fits capacity t'
  unfolding add_decoded
  add_decoded-Fits capacity der t fits room = elim (Bool-cases (length der == 0)) [
    | inl empty ↦ (false, t, rw (add_decoded, empty) refl, fits)
    | inr full ↦
        let (b, t', e, f) = add_root-Fits capacity der t fits room in
        (b, t', rw (add_decoded, full) e, f)
  ]

  pub roots_loop-Fits :
      (capacity : ℕ) (ders : List (List ℕ)) (t : Table)
      → Fits capacity t
      → (t' : Table) × (roots_loop d capacity ders t ≡ some t') × Fits capacity t'
  unfolding roots_loop
  roots_loop-Fits capacity [] t fits = (t, refl, fits)
  roots_loop-Fits capacity (der ∷ ders) t fits = elim (Bool-cases (ltb t.next capacity)) [
    | inr full ↦ (t, rw (roots_loop, full) refl, fits)
    | inl room ↦
        let (b, t1, e, f) = add_root-Fits capacity der t fits (ltb→lt _ _ room) in
        let (t', g, h) = roots_loop-Fits capacity ders t1 f in (t', rw (roots_loop, room, e) g, h)
  ]

  -- From tables with `capacity` entries of which the counted ones are the first, and with more fuel
  -- than the text is long, the loop returns, writes to no entry outside of the tables, and leaves
  -- them so. The pieces of every name are such that their length plus 512 does not pass 32 bits.
  pub load_loop-Fits :
      (fuel capacity : ℕ) (text : List ℕ) (t : Table) (loaded : ℕ)
      → length text < fuel
      → Fits capacity t
      → (n : ℕ) × (t' : Table) × (load_loop fuel d capacity text t loaded ≡ some (n, t'))
        × Fits capacity t'
  unfolding load_loop
  load_loop-Fits zero capacity text t loaded h fits = absurd (omega arith)
  load_loop-Fits (suc fuel) capacity text t loaded h fits =
      elim (Bool-cases (ltb t.next capacity)) [
        | inr full ↦ (loaded, t, rw (load_loop, full) refl, fits)
        | inl room ↦ elim (Option-cases (find_text text begin_marker)) [
          | inl over ↦ (loaded, t, rw (load_loop, room, over) refl, fits)
          | inr (i, begun) ↦
              let body = drop (i + length begin_marker) text in
              elim (Option-cases (find_text body end_marker)) [
                | inl unended ↦ (loaded, t, rw (load_loop, room, begun, unended) refl, fits)
                | inr (j, ended) ↦
                    let der = decode_b64 (take j body) cert_der_max_bytes in
                    let (b, t1, e, f) = add_decoded-Fits capacity der t fits (ltb→lt _ _ room) in
                    let shorter : length (drop (j + length end_marker) body) < fuel = omega (
                      arith,
                      marker_inside text i begun,
                      length-drop (j + length end_marker) body,
                      length-drop (i + length begin_marker) text,
                    ) in
                    let (n, t', g, k) =
                      load_loop-Fits fuel capacity (drop (j + length end_marker) body) t1
                        (if b then loaded + 1 else loaded) shorter f in
                    (n, t', rw (load_loop, room, begun, ended, e) g, k)
              ]
        ]
      ]

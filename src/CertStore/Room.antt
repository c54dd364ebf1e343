-- ===== src/CertStore/Room.antt =====
-- The roots of a file leave room for the ones of the library, in BearTLS/wm_cert_store.c.
use bear_tls.Base.{
  some_inj, ℕ, zero, suc, ◌+◌, ◌≤◌, ◌<◌, ◌≡◌, ap, Bool, Bool-cases, Option-cases, some, >>=-eq-some,
  List, arith, ltb, length, take, drop, inl, inr, All, if◌then◌else◌, ◌==◌,
}
use bear_tls.Base64.{decode_b64}
use bear_tls.CertStore.Pem.{
  begin_marker, end_marker, find_text, count_pem_certs, max_external_root_count,
}
use bear_tls.CertStore.Marks.{marks, find_text-After, marks-drop-le, count_pem_certs-eq-marks}
use bear_tls.CertStore.Anchor.{Decoder, build_anchor_from_der}
use bear_tls.CertStore.Name.{Addressable}
use bear_tls.CertStore.Load.{
  Table, set_slot, add_root, add_decoded, load_loop, cert_der_max_bytes, public_root_count,
}
use bear_tls.CertStore.Filling.{Fits, load_loop-Fits}

-- A certificate takes at most one entry.
add_root-next :
    (d : Decoder) (der : List ℕ) (t : Table) (b : Bool) (t' : Table)
    → add_root d der t ≡ some (b, t')
    → t'.next ≤ t.next + 1
unfolding add_root
add_root-next d der t b t' e =
    let (built, f, e1) = >>=-eq-some (build_anchor_from_der d der) _ e in
    let (slots, g, e2) = >>=-eq-some (set_slot t.slots t.next built.1) _ e1 in
    elim (Bool-cases built.0) [
      | inl good ↦ rw (← ap (λ r. r.1.next) (some_inj (rw good at e2))) (omega arith)
      | inr bad ↦ rw (← ap (λ r. r.1.next) (some_inj (rw bad at e2))) (omega arith)
    ]

add_decoded-next :
    (d : Decoder) (der : List ℕ) (t : Table) (b : Bool) (t' : Table)
    → add_decoded d der t ≡ some (b, t')
    → t'.next ≤ t.next + 1
unfolding add_decoded
add_decoded-next d der t b t' e = elim (Bool-cases (length der == 0)) [
  | inl empty ↦ rw (← ap (λ r. r.1.next) (some_inj (rw (add_decoded, empty) at e))) (omega arith)
  | inr full ↦ add_root-next d der t b t' (rw (add_decoded, full) at e)
]

-- The loop takes at most as many entries as the text has begin markers.
load_loop-next :
    (fuel : ℕ) (d : Decoder) (capacity : ℕ) (text : List ℕ) (t : Table) (loaded n : ℕ) (t' : Table)
    → load_loop fuel d capacity text t loaded ≡ some (n, t')
    → t'.next ≤ t.next + marks 0 text
unfolding load_loop
load_loop-next zero d capacity text t loaded n t' e = cc
load_loop-next (suc fuel) d capacity text t loaded n t' e =
    elim (Bool-cases (ltb t.next capacity)) [
      | inr full ↦
          let same = ap (λ r. r.1.next) (some_inj (rw (load_loop, full) at e)) in
          omega (arith, same)
      | inl room ↦ elim (Option-cases (find_text text begin_marker)) [
        | inl over ↦
            let same = ap (λ r. r.1.next) (some_inj (rw (load_loop, room, over) at e)) in
            omega (arith, same)
        | inr (i, begun) ↦
            let body = drop (i + length begin_marker) text in
            let mark : marks 0 text ≡ suc (marks 0 body) = rw begun at (find_text-After text) in
            elim (Option-cases (find_text body end_marker)) [
              | inl unended ↦
                  let same =
                    ap (λ r. r.1.next) (some_inj (rw (load_loop, room, begun, unended) at e)) in
                  omega (arith, same)
              | inr (j, ended) ↦
                  let der = decode_b64 (take j body) cert_der_max_bytes in
                  let fewer = marks-drop-le (j + length end_marker) body in
                  elim (Option-cases (add_decoded d der t)) [
                    | inl fault ↦ cc (rw (load_loop, room, begun, ended, fault) at e)
                    | inr (r, added) ↦
                        let one = add_decoded-next d der t r.0 r.1 added in
                        let ih =
                          load_loop-next fuel d capacity (drop (j + length end_marker) body) r.1
                            (if r.0 then loaded + 1 else loaded) n t'
                            (rw (load_loop, room, begun, ended, added) at e) in
                        omega (arith, ih, one, fewer, mark)
                  ]
            ]
      ]
    ]

module _ (d : Decoder) (small : (der : List ℕ) → All Addressable (d.dn_chunks der)) where
  -- A file whose count of certificates is below 256 leaves the 23 entries of the library's own
  -- roots: from tables of which no entry is taken, with 23 entries and one for each certificate
  -- that was counted, the loop over the text returns, and at least 23 entries are then free. Each
  -- name's pieces are such that their length plus 512 does not pass 32 bits.
  pub load_loop_room :
      (capacity : ℕ) (text : List ℕ) (t : Table)
      → count_pem_certs text < max_external_root_count
      → capacity ≡ public_root_count + count_pem_certs text
      → Fits capacity t
      → t.next ≡ 0
      → (n : ℕ) × (t' : Table) × (load_loop (suc (length text)) d capacity text t 0 ≡ some (n, t'))
        × (t'.next + public_root_count ≤ capacity)
  load_loop_room capacity text t few size fits fresh =
      let (n, t', e, fits') =
        load_loop-Fits d small (suc (length text)) capacity text t 0 (omega arith) fits in
      let taken = load_loop-next (suc (length text)) d capacity text t 0 n t' e in
      (n, t', e, omega (arith, taken, count_pem_certs-eq-marks text, few, size, fresh))

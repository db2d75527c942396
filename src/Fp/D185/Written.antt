-- ===== src/Fp/D185/Written.antt =====
-- What `fp_create_d185` (fp/src/d185.c) has written where it succeeds.
use libfuji.Common.{
  ℕ, ◌+◌, ◌*◌, ◌/◌, ◌%◌, ◌^◌, ◌<◌, ◌≤◌, ◌≡◌, refl, ap, sym, ◌∙◌, inl, inr, Bool-cases, Option-cases,
  List, [], ◌∷◌, ◌++◌, some, append_assoc, append-nil, length, length-append, get_elem?, zero, suc,
  le32, ltb, arith, read_u32, read_u32-append, u8,
}
use libfuji.Fp.Lookup.{success}
use libfuji.Fp.Profile.{FujiProfile}
use libfuji.Fp.D185.Props.{D185Prop, all_props, get_prop}
use libfuji.Fp.D185.Codec.{write_u8, write_u32, write_props, fp_create_d185}
use libfuji.Fp.D185.Writer.{write_u32_room}
use libfuji.Fp.D185.Create.{prefix_of, length-prefix_of, create-prefix}

write_u8-some :
    (len : ℕ) (out o : List ℕ) (v : ℕ) → v < 256 → write_u8 len out v ≡ some o → o ≡ out ++ v ∷ []
unfolding write_u8
write_u8-some len out o v h e = elim (Bool-cases (ltb (length out) len)) [
  | inl b ↦ let same : u8 v ≡ v = omega arith in ground (arith, b, same, e)
  | inr b ↦ absurd (ground (arith, b, e))
]

write_u32-some :
    (len : ℕ) (out o : List ℕ) (v : ℕ) → write_u32 len out v ≡ some o → o ≡ out ++ le32 v
unfolding write_u32 write_u8
write_u32-some len out o v e = elim (Option-cases (write_u8 len out (v % 256))) [
  | inl q ↦ absurd (ground (arith, q, e))
  | inr (o0, q0) ↦ elim (Option-cases (write_u8 len o0 (v / 2 ^ 8 % 256))) [
    | inl q ↦ absurd (ground (arith, q, q0, e))
    | inr (o1, q1) ↦ elim (Option-cases (write_u8 len o1 (v / 2 ^ 16 % 256))) [
      | inl q ↦ absurd (ground (arith, q, q0, q1, e))
      | inr (o2, q2) ↦
          let last : write_u8 len o2 (v / 2 ^ 24 % 256) ≡ some o = ground (arith, q0, q1, q2, e) in
          rw
            (
              write_u8-some len o2 o (v / 2 ^ 24 % 256) (omega arith) last,
              write_u8-some len o1 o2 (v / 2 ^ 16 % 256) (omega arith) q2,
              write_u8-some len o0 o1 (v / 2 ^ 8 % 256) (omega arith) q1,
              write_u8-some len out o0 (v % 256) (omega arith) q0,
            )
            ((rw (append_assoc, append_assoc, append_assoc) refl))
    ]
  ]
]

module _ (fp : FujiProfile) (junk : D185Prop → ℕ) (junk_size len : ℕ) where
  values : List D185Prop → List ℕ
  values [] = []
  values (p ∷ ps) = le32 (get_prop fp p (junk p) junk_size).0 ++ values ps

  length-values : (ps : List D185Prop) → length (values ps) ≡ 4 * length ps
  unfolding values
  length-values [] = omega arith
  length-values (p ∷ ps) = omega (arith, length-values ps)

  write_props-values :
      (out bin : List ℕ) (ps : List D185Prop)
      → write_props fp junk junk_size len out ps ≡ some (bin, success)
      → bin ≡ out ++ values ps
  unfolding write_props values
  write_props-values out bin [] e = ground (arith, e, append-nil out)
  write_props-values out bin (p ∷ ps) e =
      elim (Option-cases (write_u32 len out (get_prop fp p (junk p) junk_size).0)) [
        | inl q ↦ absurd (ground (arith, q, e))
        | inr (o, q) ↦
            let rest : write_props fp junk junk_size len o ps ≡ some (bin, success) =
              ground (arith, q, e) in
            write_props-values o bin ps rest
            ∙ ap (λ (x : List ℕ). x ++ values ps) (write_u32-some len out o _ q)
            ∙ append_assoc out (le32 (get_prop fp p (junk p) junk_size).0) (values ps)
      ]

  -- The value of the property at index `i`.
  values-at :
      (pre : List ℕ) (ps : List D185Prop) (i : ℕ) (p : D185Prop)
      → get_elem? ps i ≡ some p
      → (get_prop fp p (junk p) junk_size).0 < 2 ^ 32
      → read_u32 (pre ++ values ps) (length pre + 4 * i) ≡ some (get_prop fp p (junk p) junk_size).0
  unfolding values
  values-at pre [] i p e h = absurd cc
  values-at pre (q ∷ qs) zero p e h =
      let same : q ≡ p = cc in
      rw same (read_u32-append pre (values qs) _ (length pre + 4 * 0) h (omega arith))
  values-at pre (q ∷ qs) (suc i) p e h =
      let v : ℕ = (get_prop fp q (junk q) junk_size).0 in
      let place : length pre + 4 * suc i ≡ length (pre ++ le32 v) + 4 * i =
        omega (arith, length-append pre (le32 v)) in
      rw (place, ← append_assoc pre (le32 v) (values qs)) (values-at (pre ++ le32 v) qs i p e h)

  write_props-succeeds :
      ((p : D185Prop) → (get_prop fp p (junk p) junk_size).1 ≡ success)
      → (ps : List D185Prop) (out : List ℕ) → length out + 4 * length ps ≤ len
      → write_props fp junk junk_size len out ps ≡ some (out ++ values ps, success)
  unfolding write_props values
  write_props-succeeds good [] out h = ap (λ (o : List ℕ). some (o, success)) (sym (append-nil out))
  write_props-succeeds good (p ∷ ps) out h =
      let v : ℕ = (get_prop fp p (junk p) junk_size).0 in
      ground (
        arith,
        good p,
        write_u32_room len out v (omega arith),
        write_props-succeeds good ps (out ++ le32 v) (omega (arith, length-append out (le32 v))),
        append_assoc out (le32 v) (values ps),
      )

  -- Where every property is accepted, nothing fails.
  pub create_d185-succeeds :
      ((p : D185Prop) → (get_prop fp p (junk p) junk_size).1 ≡ success)
      → 629 ≤ len
      → (bin : List ℕ) × (fp_create_d185 fp junk junk_size len ≡ some (bin, success))
  create_d185-succeeds good h = (
    prefix_of fp ++ values all_props,
    create-prefix fp junk junk_size len (omega arith)
        ∙ write_props-succeeds good all_props (prefix_of fp) (omega (arith, length-prefix_of fp)),
  )

  written :
      (bin : List ℕ)
      → fp_create_d185 fp junk junk_size len ≡ some (bin, success)
      → bin ≡ prefix_of fp ++ values all_props
  unfolding fp_create_d185
  written bin e = elim (Bool-cases (ltb len 0x274)) [
    | inl b ↦ absurd (ground (arith, b, e))
    | inr b ↦
        write_props-values (prefix_of fp) bin all_props
          (sym (create-prefix fp junk junk_size len (ground (arith, b))) ∙ e)
  ]

  -- Where `fp_create_d185` succeeds, whatever the profile, it has written exactly 629 bytes, and
  -- what `get_prop` gives for the property at index `i` stands at byte 0x201 + 4 * i.
  pub create_d185-written :
      (bin : List ℕ) (i : ℕ) (p : D185Prop)
      → fp_create_d185 fp junk junk_size len ≡ some (bin, success)
      → get_elem? all_props i ≡ some p
      → (get_prop fp p (junk p) junk_size).0 < 2 ^ 32
      → (length bin ≡ 629)
        × (read_u32 bin (0x201 + 4 * i) ≡ some (get_prop fp p (junk p) junk_size).0)
  create_d185-written bin i p e q h = rw (written bin e) (
    omega (
      arith,
      length-append (prefix_of fp) (values all_props),
      length-prefix_of fp,
      length-values all_props,
    ),
    let at : read_u32 (prefix_of fp ++ values all_props) (length (prefix_of fp) + 4 * i)
            ≡ some (get_prop fp p (junk p) junk_size).0 =
          values-at (prefix_of fp) all_props i p q h in
        rw (← length-prefix_of fp) at,
  )

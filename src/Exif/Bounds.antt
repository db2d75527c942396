-- ===== src/Exif/Bounds.antt =====
-- The thumbnail that the EXIF parser finds (lib/exif.c) lies in its buffer.
use libfuji.Common.{
  subst, ℕ, zero, suc, ◌+◌, ◌^◌, ◌<◌, ◌≤◌, ◌≡◌, ◌≢◌, refl, ◌∙◌, Option, none, some, Bool, true,
  false, ◌==◌, ◌&&◌, not, if◌then◌else◌, u32, arith,
}
use libfuji.Exif.State.{Memory, GetMore, ExifParser, Answer, yield, fail, get, modify}
use libfuji.Exif.{
  ensure_size, note_entry, parse_entries, ensure_thumb, exif_parse_ifd, parse_ifd_at, skip_header,
  exif_start_entries, exif_body, exif_header, exif_start, raf_offset, raf_header, parse_marker,
  parse_jpeg, parse_image, exif_start_raw,
}
use libfuji.Exif.Sound.{
  Out, bind-Out, look-Out, peek-Out, IsFilled, Delivers, IsSound, IsGrown, ensure_size-IsGrown,
}

-- A thumbnail that was found ends in the buffer, if its end has room in 32 bits.
abbrev HasThumb : {W : Type 0} → ExifParser W → Type 0
HasThumb c =
    c.thumb_of ≢ 0
    → c.thumb_size ≢ 0
    → c.thumb_of + c.thumb_size + 1000 < 2 ^ 32
    → c.thumb_of + c.thumb_size ≤ c.length

abbrev IsFine : {W : Type 0} → ExifParser W → Type 0
IsFine c = IsSound c × HasThumb c

module _ {W : Type 0} where
  note_entry-IsSound :
      (tag value : ℕ) (c : ExifParser W) → IsSound c → IsSound (note_entry tag value c)
  unfolding note_entry
  note_entry-IsSound tag value c s = split (tag == 0x0201) (tag == 0x0202) (tag == 0x8769)
    where
      split :
          (x y z : Bool)
          → IsSound (
              if x
              then record c { thumb_of = u32 (c.exif_start + value) }
              else if y
              then record c { thumb_size = value }
              else if z
              then record c { subifd = value }
              else c)
      split true y z = record { filled = s.filled; delivers = s.delivers }
      split false true z = record { filled = s.filled; delivers = s.delivers }
      split false false true = record { filled = s.filled; delivers = s.delivers }
      split false false false = s

  parse_entries-IsSound :
      (left of : ℕ) (c : ExifParser W)
      → IsSound c
      → Out (λ d _. IsSound d) (parse_entries left of c)
  unfolding parse_entries yield modify
  parse_entries-IsSound zero of c s = s
  parse_entries-IsSound (suc left) of c s =
      bind-Out (λ d _. IsGrown (u32 (of + 12)) c d) (λ d _. IsSound d) (ensure_size (u32 (of + 12)))
        _ c (ensure_size-IsGrown (u32 (of + 12)) c s)
        (λ d _ g.
          peek-Out (λ d _. IsSound d) _ of _ d
            (λ tag.
              peek-Out (λ d _. IsSound d) _ (u32 (of + 2)) _ d
                (λ format.
                  peek-Out (λ d _. IsSound d) _ (u32 (of + 4)) _ d
                    (λ components.
                      peek-Out (λ d _. IsSound d) _ (u32 (of + 8)) _ d
                        (λ value.
                          bind-Out (λ e _. IsSound e) (λ e _. IsSound e)
                            (modify (note_entry tag value))
                            (λ _. parse_entries left (u32 (of + 12))) d
                            (note_entry-IsSound tag value d g.sound)
                            (λ e _. parse_entries-IsSound left (u32 (of + 12)) e))))))

  ensure_thumb-IsFine : (c : ExifParser W) → IsSound c → Out (λ d _. IsFine d) (ensure_thumb c)
  unfolding ensure_thumb
  ensure_thumb-IsFine c s = go (not (c.thumb_of == 0) && not (c.thumb_size == 0)) refl
    where
      grown : (d : ExifParser W) → IsGrown (u32 (c.thumb_of + c.thumb_size)) c d → HasThumb d
      grown d g n m l =
          let long : u32 (c.thumb_of + c.thumb_size) ≤ d.length =
            g.long_enough (omega (arith, g.same_of, g.same_size, l)) in
          omega (arith, long, g.same_of, g.same_size, l)

      weaken :
          (o : Answer W Unit)
          → Out (λ d _. IsGrown (u32 (c.thumb_of + c.thumb_size)) c d) o
          → Out (λ d _. IsFine d) o
      weaken none h = tt
      weaken (some (d, none)) h = tt
      weaken (some (d, some u)) h = (h.sound, grown d h)

      go :
          (b : Bool)
          → b ≡ (not (c.thumb_of == 0) && not (c.thumb_size == 0))
          → Out
              (λ d _. IsFine d)
              (if b then ensure_size (u32 (c.thumb_of + c.thumb_size)) c else some (c, some tt))
      go true e =
          weaken (ensure_size (u32 (c.thumb_of + c.thumb_size)) c)
            (ensure_size-IsGrown (u32 (c.thumb_of + c.thumb_size)) c s)
      go false e = (s, λ n m l. absurd (ground (arith, e, n, m)))

  parse_ifd-IsFine :
      (of : ℕ) (c : ExifParser W) → IsSound c → Out (λ d _. IsFine d) (exif_parse_ifd of c)
  unfolding exif_parse_ifd yield
  parse_ifd-IsFine of c s =
      peek-Out (λ d _. IsFine d) _ of _ c
        (λ entries.
          bind-Out (λ d _. IsSound d) (λ d _. IsFine d) (parse_entries entries (u32 (of + 2))) _ c
            (parse_entries-IsSound entries (u32 (of + 2)) c s)
            (λ d of' t.
              bind-Out (λ d _. IsFine d) (λ d _. IsFine d) ensure_thumb (λ _. yield of') d
                (ensure_thumb-IsFine d t) (λ e _ f. f)))

  parse_ifd_at-IsFine :
      (offset : ℕ) (c : ExifParser W) → IsFine c → Out (λ d _. IsFine d) (parse_ifd_at offset c)
  unfolding parse_ifd_at yield get
  parse_ifd_at-IsFine zero c f = f
  parse_ifd_at-IsFine (suc offset) c f =
      bind-Out (λ d start. IsFine d) (λ d _. IsFine d) (get (λ c. c.exif_start)) _ c f
        (λ d start g.
          bind-Out (λ e _. IsGrown (u32 (start + suc offset)) d e) (λ d _. IsFine d)
            (ensure_size (u32 (start + suc offset))) _ d
            (ensure_size-IsGrown (u32 (start + suc offset)) d g.0)
            (λ e _ h.
              bind-Out (λ d _. IsFine d) (λ d _. IsFine d)
                (exif_parse_ifd (u32 (start + suc offset))) (λ _. yield tt) e
                (parse_ifd-IsFine (u32 (start + suc offset)) e h.sound) (λ _ _ k. k)))

  start_entries-IsFine :
      (of : ℕ) (c : ExifParser W) → IsSound c → Out (λ d _. IsFine d) (exif_start_entries of c)
  unfolding exif_start_entries get
  start_entries-IsFine of c s =
      peek-Out (λ d _. IsFine d) _ of _ c
        (λ order.
          peek-Out (λ d _. IsFine d) _ (u32 (of + 2)) _ c
            (λ version.
              peek-Out (λ d _. IsFine d) _ (u32 (of + 4)) _ c
                (λ offset.
                  look-Out (λ d _. IsFine d) (λ c. skip_header (u32 (of + 8)) offset) _ c
                    (λ of1.
                      bind-Out (λ d _. IsFine d) (λ d _. IsFine d) (exif_parse_ifd of1) _ c
                        (parse_ifd-IsFine of1 c s)
                        (λ d of2 f.
                          peek-Out (λ d _. IsFine d) _ of2 _ d
                            (λ ifd1.
                              bind-Out (λ d _. IsFine d) (λ d _. IsFine d) (parse_ifd_at ifd1) _ d
                                (parse_ifd_at-IsFine ifd1 d f)
                                (λ e _ g.
                                  bind-Out (λ d _. IsFine d) (λ d _. IsFine d) (get (λ c. c.subifd))
                                    parse_ifd_at e g (λ e sub g. parse_ifd_at-IsFine sub e g))))))))

  body-IsFine : (of : ℕ) (c : ExifParser W) → IsSound c → Out (λ d _. IsFine d) (exif_body of c)
  unfolding exif_body modify
  body-IsFine of c s =
      bind-Out (λ d _. IsSound d) (λ d _. IsFine d) (modify (λ c. record c { exif_start = of })) _ c
        (record { filled = s.filled; delivers = s.delivers }) (λ d _. start_entries-IsFine of d)

  header-IsFine : (of : ℕ) (c : ExifParser W) → IsSound c → Out (λ d _. IsFine d) (exif_header of c)
  unfolding exif_header fail
  header-IsFine of c s = peek-Out (λ d _. IsFine d) _ of _ c (λ b. go b)
    where
      go : (b : Bool) → Out (λ d _. IsFine d) ((if b then exif_body (u32 (of + 6)) else fail) c)
      go true = body-IsFine (u32 (of + 6)) c s
      go false = tt

  exif_start-IsFine :
      (of : ℕ) (c : ExifParser W) → IsSound c → Out (λ d _. IsFine d) (exif_start of c)
  unfolding exif_start
  exif_start-IsFine of c s =
      peek-Out (λ d _. IsFine d) _ of _ c
        (λ type.
          peek-Out (λ d _. IsFine d) _ (u32 (of + 2)) _ c
            (λ len.
              peek-Out (λ d _. IsFine d) _ (u32 (of + 4)) _ c (λ is_jfif. header-IsFine _ c s)))

  -- Before the EXIF header is found there is no thumbnail.
  abbrev IsBare : ExifParser W → Type 0
  IsBare c = IsSound c × (c.thumb_of ≡ 0)

  bare-IsFine : (c : ExifParser W) → IsBare c → IsFine c
  bare-IsFine c (s, z) = (s, λ n m l. absurd (n z))

  ensure_size-IsBare :
      (n : ℕ) (c : ExifParser W) → IsBare c → Out (λ d _. IsBare d) (ensure_size n c)
  ensure_size-IsBare n c (s, z) = go (ensure_size n c) (ensure_size-IsGrown n c s)
    where
      go : (o : Answer W Unit) → Out (λ d _. IsGrown n c d) o → Out (λ d _. IsBare d) o
      go none h = tt
      go (some (d, none)) h = tt
      go (some (d, some u)) h = (h.sound, h.same_of ∙ z)

  raf_header-IsBare : (c : ExifParser W) → IsBare c → Out (λ d _. IsBare d) (raf_header c)
  unfolding raf_header raf_offset yield
  raf_header-IsBare c h = peek-Out (λ d _. IsBare d) _ 0 _ c (λ b. go b)
    where
      go : (b : Bool) → Out (λ d _. IsBare d) ((if b then raf_offset else yield 0) c)
      go true =
          peek-Out (λ d _. IsBare d) _ 0x54 _ c
            (λ n.
              bind-Out (λ d _. IsBare d) (λ d _. IsBare d) (ensure_size n) (λ _. yield n) c
                (ensure_size-IsBare n c h) (λ _ _ k. k))
      go false = h

  jpeg-IsFine :
      (of first : ℕ) (c : ExifParser W) → IsBare c → Out (λ d _. IsFine d) (parse_jpeg of first c)
  unfolding parse_jpeg parse_marker yield
  jpeg-IsFine of first c h = go (first == 0xff)
    where
      marked :
          (b : Bool) → Out (λ d _. IsFine d) ((if b then exif_start (u32 (of + 2)) else yield tt) c)
      marked true = exif_start-IsFine (u32 (of + 2)) c h.0
      marked false = bare-IsFine c h

      go : (b : Bool) → Out (λ d _. IsFine d) ((if b then parse_marker of else yield tt) c)
      go true = peek-Out (λ d _. IsFine d) _ (u32 (of + 1)) _ c (λ second. marked (second == 0xd8))
      go false = bare-IsFine c h

  parse_image-IsFine : (c : ExifParser W) → IsBare c → Out (λ d _. IsFine d) (parse_image c)
  unfolding parse_image
  parse_image-IsFine c h =
      bind-Out (λ d _. IsBare d) (λ d _. IsFine d) (ensure_size 100) _ c
        (ensure_size-IsBare 100 c h)
        (λ d _ h1.
          bind-Out (λ d _. IsBare d) (λ d _. IsFine d) raf_header _ d (raf_header-IsBare d h1)
            (λ e of h2. peek-Out (λ d _. IsFine d) _ of _ e (λ first. jpeg-IsFine of first e h2)))

  -- From a buffer that has its bytes, with a `get_more` that gives as many bytes as it is asked for: where the
  -- parser returns 0 and has found a thumbnail whose end is below 2 ^ 32 - 1000, all bytes of the thumbnail are in
  -- the buffer.
  pub exif_start_raw-thumb :
      (buf : Memory) (n : ℕ) (get_more : Option (GetMore W)) (w : W) (c : ExifParser W) (i : ℕ)
      → IsFilled n buf
      → Delivers get_more
      → exif_start_raw buf n get_more w ≡ some (c, some tt)
      → c.thumb_of ≢ 0
      → i < c.thumb_size
      → c.thumb_of + c.thumb_size + 1000 < 2 ^ 32
      → (c.thumb_of + c.thumb_size ≤ c.length) × ((v : ℕ) × (c.buf (c.thumb_of + i) ≡ some v))
  unfolding exif_start_raw
  exif_start_raw-thumb buf n get_more w c i f d e z l b =
      let fine : IsFine c =
        subst (Out (λ d _. IsFine d)) e
          (parse_image-IsFine _ (record { filled = f; delivers = d }, refl)) in
      let fits : c.thumb_of + c.thumb_size ≤ c.length = fine.1 z (λ x. omega (arith, x, l)) b in
      (fits, fine.0.filled (c.thumb_of + i) (omega (arith, fits, l)))

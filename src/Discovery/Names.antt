-- ===== src/Discovery/Names.antt =====
-- The names that the messages leave (lib/discovery.c: the loops over the words) fit into their 64 bytes with a terminator.
use libfuji.Common.{
  ℕ, zero, suc, ◌<◌, ◌≤◌, ◌≡◌, refl, subst, List, [], ◌∷◌, Option, none, some, Bool, Bool-cases,
  inl, inr, length, take, arith,
}
use libfuji.Discovery.{
  DiscoverInfo, Header, read_headers, is_word, snprintf_64, greeting_header, invite_header,
  tether_header,
}
use libfuji.Discovery.Thread.{initial_info}
use libfuji.Discovery.Kept.{KeepsInfo, if-KeepsInfo, read_headers-keeps}

-- The camera's name and its model end within their 64 bytes.
pub record HasNames (info : DiscoverInfo) : Type 0 where
  pub name : length info.camera_name < 64
  pub model : length info.camera_model < 64

length-take : {A : Type 0} (n : ℕ) (xs : List A) → length (take n xs) ≤ n
length-take zero xs = omega arith
length-take (suc n) [] = omega arith
length-take (suc n) (x ∷ xs) = omega (arith, length-take n xs)

snprintf-fits : (s : List ℕ) → length (snprintf_64 s) < 64
unfolding snprintf_64
snprintf-fits s = omega (arith, length-take 63 s)

greeting-KeepsNames : (w : List ℕ) → KeepsInfo HasNames (greeting_header w)
unfolding greeting_header
greeting-KeepsNames w =
    if-KeepsInfo HasNames (is_word w _) _ _
      (λ v info h. elim (Bool-cases (is_word v (0x2a ∷ []))) [
        | inl b ↦ rw b h
        | inr b ↦ rw b (record { name = h.name; model = h.model })
      ])
      (if-KeepsInfo HasNames (is_word w _) _ _
        (λ v info h. record { name = h.name; model = h.model }) tt)

invite-KeepsNames : (w : List ℕ) → KeepsInfo HasNames (invite_header w)
unfolding invite_header
invite-KeepsNames w =
    if-KeepsInfo HasNames (is_word w _) _ _
      (λ v info h. record { name = snprintf-fits v; model = h.model })
      (if-KeepsInfo HasNames (is_word w _) _ _
        (λ v info h. record { name = h.name; model = snprintf-fits v }) tt)

tether-KeepsNames : (w : List ℕ) → KeepsInfo HasNames (tether_header w)
unfolding tether_header
tether-KeepsNames w =
    if-KeepsInfo HasNames (is_word w _) _ _ (λ v info h. record { name = h.name; model = h.model })
      (if-KeepsInfo HasNames (is_word w _) _ _
        (λ v info h. record { name = h.name; model = snprintf-fits v })
        (if-KeepsInfo HasNames (is_word w _) _ _
          (λ v info h. record { name = h.name; model = h.model }) tt))

-- The messages of a camera.
pub data Message : Type 0 where
  greeting : Message
  invitation : Message
  tether_message : Message

abbrev pub header_of : Message → Header
header_of greeting = greeting_header
header_of invitation = invite_header
header_of tether_message = tether_header

header_of-KeepsNames : (kind : Message) (w : List ℕ) → KeepsInfo HasNames (header_of kind w)
header_of-KeepsNames greeting w = greeting-KeepsNames w
header_of-KeepsNames invitation w = invite-KeepsNames w
header_of-KeepsNames tether_message w = tether-KeepsNames w

-- The messages of an exchange in their order, each read to its end: the record behind the last one.
unfoldable pub read_all : List (Message × List ℕ) → DiscoverInfo → Option DiscoverInfo
read_all [] info = some info
read_all ((kind, s) ∷ ms) info = elim (read_headers (suc (length s)) (header_of kind) s info) [
  | none ↦ none
  | some p ↦ read_all ms p.0
]

-- What is left of the record.
Named : Option DiscoverInfo → Type 0
Named none = Unit
Named (some info) = HasNames info

all-Named :
    (ms : List (Message × List ℕ)) (info : DiscoverInfo) → HasNames info → Named (read_all ms info)
unfolding read_all Named
all-Named [] info h = h
all-Named ((kind, s) ∷ ms) info h =
    go (read_headers (suc (length s)) (header_of kind) s info)
      (λ info' fine e.
        read_headers-keeps HasNames (header_of kind) (header_of-KeepsNames kind) s info info'
          (suc (length s)) fine h (omega arith) e)
      (all-Named ms)
  where
    go :
        (o : Option (DiscoverInfo × Bool))
        → ((info' : DiscoverInfo) (fine : Bool) → o ≡ some (info', fine) → HasNames info')
        → ((info' : DiscoverInfo) → HasNames info' → Named (read_all ms info'))
        → Named (elim o as (λ x. Option DiscoverInfo) [ none ↦ none | some p ↦ read_all ms p.0 ])
    go none k h = tt
    go (some (info', fine)) k h = h info' (k info' fine refl)

-- Whatever messages cameras send, greetings, invitations and tether messages in any order and with
-- errors among them: in the record that they leave of the one that discovery starts with, the
-- camera's name and its model have their terminators within 64 bytes.
pub read_all-HasNames :
    (client_name : List ℕ) (ms : List (Message × List ℕ)) (info : DiscoverInfo)
    → read_all ms (initial_info client_name) ≡ some info
    → HasNames info
unfolding Named
read_all-HasNames client_name ms info e =
    subst Named e
      (all-Named ms (initial_info client_name) (record { name = omega arith; model = omega arith }))

-- ===== src/MgmtProtocol/BitaxeRaw/Codec/Requests.antt =====
-- The stream of requests that the encoder writes.
use nano_mujina.Prelude.{
  ℕ, ◌+◌, ◌/◌, ◌%◌, ◌≤◌, ◌<◌, ◌≡◌, refl, sym, ap, ◌∙◌, List, [], ◌∷◌, ◌++◌, arith, ◌==◌,
  if◌then◌else◌, ok, err, length, take, drop, take-append, drop-append,
}
use nano_mujina.Prelude.Bytes.{u16}
use nano_mujina.MgmtProtocol.BitaxeRaw.Packet.{Page, i2c, gpio, adc, led, system, page_repr, Packet}
use nano_mujina.MgmtProtocol.BitaxeRaw.Packet
use nano_mujina.MgmtProtocol.BitaxeRaw.Response.{ResponseFormat, packet_too_large}
use nano_mujina.MgmtProtocol.BitaxeRaw.Codec.{new, encode}

-- A packet of at most 4096 bytes is appended to the output and its first two bytes are its length;
-- the output in front of it stays.
pub encode-fits :
    (f : ResponseFormat) (p : Packet) (dst : List ℕ)
    → 6 + length p.payload ≤ 4096
    → (encode (new f) p dst ≡ (ok tt, dst ++ Packet.encode p))
      × (take 2 (Packet.encode p)
          ≡ (length (Packet.encode p) % 256) ∷ (length (Packet.encode p) / 256) ∷ [])
unfolding encode new Packet.encode
encode-fits f p dst h = (ground arith, ground arith)

-- A longer packet is refused with its length, and nothing is written.
pub encode-too_large :
    (f : ResponseFormat) (p : Packet) (dst : List ℕ)
    → 4096 < 6 + length p.payload
    → encode (new f) p dst ≡ (err (packet_too_large (6 + length p.payload)), dst)
unfolding encode new Packet.encode
encode-too_large f p dst h = ground arith

page_of : ℕ → Page
page_of n =
    if n == 0x05
    then i2c
    else if n == 0x06
    then gpio
    else if n == 0x07
    then adc
    else if n == 0x08
    then led
    else system

page_of-page_repr : (p : Page) → page_of (page_repr p) ≡ p
unfolding page_repr page_of
page_of-page_repr i2c = refl
page_of-page_repr gpio = refl
page_of-page_repr adc = refl
page_of-page_repr led = refl
page_of-page_repr system = refl

page_repr-injective : (p q : Page) → page_repr p ≡ page_repr q → p ≡ q
page_repr-injective p q h = sym (page_of-page_repr p) ∙ ap page_of h ∙ page_of-page_repr q

header-cancel :
    (a b c d e f a' b' c' d' e' f' : ℕ) (xs ys : List ℕ)
    → a ∷ b ∷ c ∷ d ∷ e ∷ f ∷ xs ≡ a' ∷ b' ∷ c' ∷ d' ∷ e' ∷ f' ∷ ys
    → (a ≡ a') × (b ≡ b') × (c ≡ c') × (d ≡ d') × (e ≡ e') × (f ≡ f') × (xs ≡ ys)
header-cancel a b c d e f a' b' c' d' e' f' xs ys h = (
  ground (arith, h),
  ground (arith, h),
  ground (arith, h),
  ground (arith, h),
  ground (arith, h),
  ground (arith, h),
  ground (arith, h),
)

-- Packets with the same fields.
packet-ext :
    (p q : Packet)
    → p.id ≡ q.id
    → p.bus ≡ q.bus
    → p.page ≡ q.page
    → p.command ≡ q.command
    → p.payload ≡ q.payload
    → p ≡ q
packet-ext p q a b c d e =
    λ i. record { id = a i; bus = b i; page = c i; command = d i; payload = e i }

append-cancel :
    (xs ys r s : List ℕ) → length xs ≡ length ys → xs ++ r ≡ ys ++ s → (xs ≡ ys) × (r ≡ s)
append-cancel xs ys r s h e = (
  sym (take-append (length xs) xs r refl)
      ∙ ap (take (length xs)) e
      ∙ take-append (length xs) ys s (sym h),
  sym (drop-append (length xs) xs r refl)
      ∙ ap (drop (length xs)) e
      ∙ drop-append (length xs) ys s (sym h),
)

-- Requests are read back unambiguously: two streams of bytes that each begin with a packet of at
-- most 4096 bytes and are equal begin with the same packet, and go on with the same bytes.
pub encode-unambiguous :
    (p q : Packet) (r s : List ℕ)
    → 6 + length p.payload ≤ 4096
    → 6 + length q.payload ≤ 4096
    → Packet.encode p ++ r ≡ Packet.encode q ++ s
    → (p ≡ q) × (r ≡ s)
unfolding Packet.encode
encode-unambiguous p q r s h k e =
    let (low, high, id, bus, page, command, rest) =
      header-cancel (u16 (6 + length p.payload) % 256) (u16 (6 + length p.payload) / 256) p.id p.bus
        (page_repr p.page) p.command (u16 (6 + length q.payload) % 256)
        (u16 (6 + length q.payload) / 256) q.id q.bus (page_repr q.page) q.command (p.payload ++ r)
        (q.payload ++ s) e in
    let (payload, after) = append-cancel p.payload q.payload r s (omega arith) rest in
    (packet-ext p q id bus (page_repr-injective p.page q.page page) command payload, after)

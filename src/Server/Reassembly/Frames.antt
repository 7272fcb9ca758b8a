-- ===== src/Server/Reassembly/Frames.antt =====
-- `Server::PacketConstruct` finds the packets again, however the stream was cut.
use isegye_idol_game_server.Common.{
  ℕ, zero, suc, ◌+◌, ◌-◌, ◌<◌, ◌≤◌, ◌≡◌, refl, sym, ap, ◌∙◌, ◌⊎◌, inl, inr, false, some, List, [],
  ◌∷◌, ◌++◌, length, ltb, arith, length-append, lt→ltb,
}
use mathlib.Core.Option.{some_inj}
use isegye_idol_game_server.Server.Reassembly.{
  take, drop, header, Constructed, kept, out_of_fuel, packet_before, construct_packet,
  size_or_header, construct_loop, packet_construct,
}

-- A packet of at least its header, whose first two bytes are its size.
abbrev pub IsPacket : List ℕ → Type 0
IsPacket p = (header p ≡ some (length p)) × (3 ≤ length p) × (length p ≤ 1300)

-- What is left of a stream after its packets: nothing, or the beginning of a packet, with its size.
abbrev pub IsPartial : List ℕ → Type 0
IsPartial t = (t ≡ []) ⊎ ((n : ℕ) × (header t ≡ some n) × (length t < n) × (n ≤ 1300))

abbrev pub concat : List (List ℕ) → List ℕ → List ℕ
concat [] tail = tail
concat (p ∷ packets) tail = p ++ concat packets tail

abbrev pub AllPackets : List (List ℕ) → Type 0
AllPackets [] = Unit {0}
AllPackets (p ∷ packets) = IsPacket p × AllPackets packets

not_less : (a b : ℕ) → b ≤ a → ltb a b ≡ false
not_less a b h = ground arith

-- A packet is cut off the front of the stream.
cut :
    (m : ℕ) (buf bytes p q : List ℕ)
    → m + length buf ≡ length p
    → buf ++ bytes ≡ p ++ q
    → (buf ++ take m bytes ≡ p) × (drop m bytes ≡ q)
cut zero [] bytes [] q h e = (refl, e)
cut zero [] bytes (y ∷ p) q h e = absurd (omega (arith, h))
cut (suc m) [] bytes [] q h e = absurd (omega (arith, h))
cut (suc m) [] [] (y ∷ p) q h e = cc
cut (suc m) [] (x ∷ bytes) (y ∷ p) q h e =
    let (r, s) = cut m [] bytes p q (omega (arith, h)) cc in (cc, s)
cut m (x ∷ buf) bytes [] q h e = absurd (omega (arith, h))
cut m (x ∷ buf) bytes (y ∷ p) q h e =
    let (r, s) = cut m buf bytes p q (omega (arith, h)) cc in (cc, s)

-- The size is read from the first two bytes, whatever follows them.
header-append : (xs ys : List ℕ) {n : ℕ} → header xs ≡ some n → header (xs ++ ys) ≡ some n
header-append [] ys e = cc
header-append (a ∷ []) ys e = cc
header-append (a ∷ b ∷ xs) ys e = e

-- One turn that finds a whole packet.
whole_packet :
    (p q buf bytes : List ℕ) (next : List ℕ → Constructed)
    → IsPacket p
    → length buf ≤ length p
    → buf ++ bytes ≡ p ++ q
    → construct_packet (length p) buf bytes next ≡ packet_before p (next q)
unfolding construct_packet
whole_packet p q buf bytes next (_, _, h) l e =
    let (r, s) = cut (length p - length buf) buf bytes p q (omega arith) e in
    let lengths : length buf + length bytes ≡ length p + length q =
      sym (length-append buf bytes) ∙ ap length e ∙ length-append p q in
    rw
      (
        not_less (length buf + length bytes) (length p) (omega (arith, lengths)),
        not_less (length p) (length buf) l,
        not_less 1300 (length p) h,
        r,
        s,
      )
      refl

-- One turn that finds the beginning of a packet.
begun_packet :
    (n : ℕ) (buf bytes : List ℕ) (next : List ℕ → Constructed)
    → length buf + length bytes < n
    → n ≤ 1300
    → construct_packet n buf bytes next ≡ kept [] (buf ++ bytes)
unfolding construct_packet
begun_packet n buf bytes next h l =
    rw (lt→ltb _ n h, not_less 1300 (length buf + length bytes) (omega arith)) refl

-- The loop between two packets.
construct_loop-frames :
    (fuel : ℕ) (packets : List (List ℕ)) (tail : List ℕ)
    → AllPackets packets
    → IsPartial tail
    → length (concat packets tail) ≤ fuel
    → construct_loop fuel 0 [] (concat packets tail) ≡ kept packets tail
unfolding construct_loop
construct_loop-frames fuel [] tail v (inl e) h = rw e refl
construct_loop-frames fuel [] [] v (inr _) h = refl
construct_loop-frames zero [] (x ∷ tail) v (inr _) h = absurd (omega (arith, h))
construct_loop-frames (suc fuel) [] (x ∷ tail) v (inr (n, e, l, m)) h =
    rw (e, construct_loop)
      (begun_packet n [] (x ∷ tail) (λ r. construct_loop fuel 0 [] r) (omega (arith, l)) m)
construct_loop-frames fuel ([] ∷ packets) tail v t h = absurd (omega (arith, v.0.1))
construct_loop-frames zero ((x ∷ p) ∷ packets) tail v t h = absurd (omega (arith, h))
construct_loop-frames (suc fuel) ((x ∷ p) ∷ packets) tail v t h =
    let rest = concat packets tail in
    let enough : length rest ≤ fuel = omega (arith, h, length-append p rest) in
    rw (header-append (x ∷ p) rest v.0.0, construct_loop)
      (whole_packet (x ∷ p) rest [] (x ∷ (p ++ rest)) (λ r. construct_loop fuel 0 [] r) v.0
          (omega arith) refl
        ∙ ap (packet_before (x ∷ p)) (construct_loop-frames fuel packets tail v.1 t enough))

append-nil : (xs : List ℕ) → xs ++ [] ≡ xs
append-nil [] = refl
append-nil (x ∷ xs) = ap (◌∷◌ x) (append-nil xs)

size_known : (n : ℕ) (rest : List ℕ) → 0 < n → size_or_header n rest ≡ some n
size_known zero rest h = elim h [ ]
size_known (suc n) rest h = refl

same_size :
    (xs ys us vs : List ℕ) {n m : ℕ}
    → header xs ≡ some n
    → header us ≡ some m
    → xs ++ ys ≡ us ++ vs
    → n ≡ m
same_size xs ys us vs {n} {m} p q e =
    some_inj.0 (sym (header-append xs ys p) ∙ ap header e ∙ header-append us vs q)

-- The loop where a packet of `n` bytes has been begun.
begun-frames :
    (fuel n : ℕ) (buf bytes : List ℕ) (packets : List (List ℕ)) (tail : List ℕ)
    → header buf ≡ some n
    → length buf < n
    → n ≤ 1300
    → AllPackets packets
    → IsPartial tail
    → buf ++ bytes ≡ concat packets tail
    → length bytes ≤ fuel
    → construct_loop fuel n buf bytes ≡ kept packets tail
unfolding construct_loop
begun-frames fuel n buf [] [] tail hd l m v t e h = ap (kept []) (sym (append-nil buf) ∙ e)
begun-frames fuel n buf [] (p ∷ packets) tail hd l m v t e h =
    let same = same_size buf [] p (concat packets tail) hd v.0.0 e in
    let lengths : length buf + 0 ≡ length p + length (concat packets tail) =
      sym (length-append buf []) ∙ ap length e ∙ length-append p (concat packets tail) in
    absurd (omega (arith, same, lengths, l))
begun-frames zero n buf (y ∷ bytes) packets tail hd l m v t e h = absurd (omega (arith, h))
begun-frames (suc fuel) n buf (y ∷ bytes) [] tail hd l m v (inl z) e h =
    absurd (omega (arith, length-append buf (y ∷ bytes), ap length (e ∙ z)))
begun-frames (suc fuel) n buf (y ∷ bytes) [] tail hd l m v (inr (k, hd', l', m')) e h =
    let same : n ≡ k = some_inj.0 (sym (header-append buf (y ∷ bytes) hd) ∙ ap header e ∙ hd') in
    rw (size_known n (y ∷ bytes) (omega (arith, l)), construct_loop)
      (begun_packet n buf (y ∷ bytes) (λ r. construct_loop fuel 0 [] r)
          (omega (arith, same, l', length-append buf (y ∷ bytes), ap length e)) m
        ∙ ap (kept []) e)
begun-frames (suc fuel) n buf (y ∷ bytes) (p ∷ packets) tail hd l m v t e h =
    let rest = concat packets tail in
    let same : n ≡ length p = same_size buf (y ∷ bytes) p rest hd v.0.0 e in
    let enough : length rest ≤ fuel =
      omega (arith, same, l, h, length-append buf (y ∷ bytes), length-append p rest, ap length e) in
    rw (size_known n (y ∷ bytes) (omega (arith, l)), construct_loop, same)
      (whole_packet p rest buf (y ∷ bytes) (λ r. construct_loop fuel 0 [] r) v.0
          (omega (arith, l, same)) e
        ∙ ap (packet_before p) (construct_loop-frames fuel packets tail v.1 t enough))

-- However a stream of packets is cut: if what was kept is nothing or the beginning of a packet, and with
-- the bytes that come it makes up some packets and again nothing or the beginning of one, then just
-- these packets are handed on, in their order, that beginning is kept, and the loop takes at most one
-- turn for each byte. A packet has at least three and at most 1300 bytes and says its size in its first
-- two; a beginning has these two.
pub packet_construct-frames :
    (fuel : ℕ) (buf bytes : List ℕ) (packets : List (List ℕ)) (tail : List ℕ)
    → AllPackets packets
    → IsPartial buf
    → IsPartial tail
    → buf ++ bytes ≡ concat packets tail
    → length bytes ≤ fuel
    → packet_construct fuel buf bytes ≡ kept packets tail
unfolding packet_construct
packet_construct-frames fuel [] bytes packets tail v b t e h =
    rw e (construct_loop-frames fuel packets tail v t (omega (arith, h, ap length e)))
packet_construct-frames fuel (x ∷ buf) bytes packets tail v (inl z) t e h = cc
packet_construct-frames fuel (x ∷ buf) bytes packets tail v (inr (n, hd, l, m)) t e h =
    rw (hd, packet_construct) (begun-frames fuel n (x ∷ buf) bytes packets tail hd l m v t e h)

empty_packet :
    (bytes : List ℕ) (next : List ℕ → Constructed)
    → construct_packet 0 [] bytes next ≡ packet_before [] (next bytes)
unfolding construct_packet
empty_packet bytes next = rw (not_less (length {A = ℕ} [] + length bytes) 0 (omega arith)) refl

-- A size of 0 is never done with: whatever the fuel, the loop has not ended.
pub packet_construct-stuck :
    (fuel : ℕ) (bytes : List ℕ)
    → header bytes ≡ some 0
    → packet_construct fuel [] bytes ≡ out_of_fuel
unfolding packet_construct construct_loop
packet_construct-stuck fuel [] e = cc
packet_construct-stuck zero (x ∷ bytes) e = refl
packet_construct-stuck (suc fuel) (x ∷ bytes) e =
    rw (e, construct_loop)
      (empty_packet (x ∷ bytes) (λ r. construct_loop fuel 0 [] r)
        ∙ ap (packet_before []) (packet_construct-stuck fuel (x ∷ bytes) e))

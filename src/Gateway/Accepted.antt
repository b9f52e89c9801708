-- ===== src/Gateway/Accepted.antt =====
-- server/gateway/packet.go: what is unpacked is what was packed.
use minotaur.Base.{
  ℕ, ◌+◌, ◌*◌, ◌<◌, List, [], ◌∷◌, ◌++◌, true, false, ◌==◌, length, ◌≡◌, refl, sym, ap, ap₂, ◌∙◌,
  arith, subst, Bool-cases, inl, inr, le→ltb, ==_iff,
}
use minotaur.Gateway.{
  Net, Result, ok, failed, packet_identifier, compare_bytes, bytes_agree, port_bytes, port_at,
  marshal_gateway_out_packet, unmarshal_gateway_out_packet,
}
use minotaur.Gateway.Codec.{AreBytes, IsNet, address_bytes_lem}

bytes_agree_sound : (a b : List ℕ) → length a ≡ length b → bytes_agree a b ≡ true → a ≡ b
unfolding bytes_agree
bytes_agree_sound [] [] l h = refl
bytes_agree_sound [] (y ∷ b) l h = absurd (omega arith)
bytes_agree_sound (x ∷ a) [] l h = absurd (omega arith)
bytes_agree_sound (x ∷ a) (y ∷ b) l h = elim (Bool-cases (x == y)) [
  | inl e ↦ ap₂ ◌∷◌ ((==_iff x y).0 e) (bytes_agree_sound a b (omega arith) (sym (rw e refl) ∙ h))
  | inr e ↦ absurd (contradicts (sym h ∙ rw e refl))
]
  where
    contradicts : true ≡ false → ⊥
    contradicts h = absurd (cc)

compare_bytes_sound : (a b : List ℕ) → compare_bytes a b ≡ true → a ≡ b
unfolding compare_bytes
compare_bytes_sound a b h = elim (Bool-cases (length a == length b)) [
  | inl e ↦ bytes_agree_sound a b ((==_iff (length a) (length b)).0 e) (sym (rw e refl) ∙ h)
  | inr e ↦ absurd (contradicts (sym h ∙ rw e refl))
]
  where
    contradicts : true ≡ false → ⊥
    contradicts h = absurd (cc)

port_back : (a b : ℕ) → a < 256 → b < 256 → port_bytes (a * 256 + b) ≡ a ∷ b ∷ []
unfolding port_bytes
port_back a b h k = ap₂ (λ x y. x ∷ y ∷ []) (omega arith) (omega arith)

module _ {Text : Type 0} (net : Net Text) (ok_net : IsNet net) where
  abbrev Repacks : List ℕ → Result (Text × List ℕ) → Type 0
  Repacks whole (ok r) = marshal_gateway_out_packet net r.0 r.1 ≡ ok whole
  Repacks whole (failed e) = Unit {0}

  repacked :
      (e f g i p q : ℕ) (packet : List ℕ)
      → AreBytes (e ∷ f ∷ g ∷ i ∷ [])
      → (p < 256) × (q < 256)
      → marshal_gateway_out_packet net
          (net.join_port (net.ip_string (e ∷ f ∷ g ∷ i ∷ [])) (p * 256 + q))
          packet
        ≡ ok (packet_identifier ++ e ∷ f ∷ g ∷ i ∷ p ∷ q ∷ packet)
  unfolding marshal_gateway_out_packet
  repacked e f g i p q packet bytes (hp, hq) =
      rw (address_bytes_lem net ok_net (e ∷ f ∷ g ∷ i ∷ []) (p * 256 + q) refl bytes (omega arith))
        (ap (λ port. ok (((packet_identifier ++ e ∷ f ∷ g ∷ i ∷ []) ++ port) ++ packet))
          (port_back p q hp hq))

  repacks :
      (a b c d e f g i p q : ℕ) (packet : List ℕ)
      → AreBytes (a ∷ b ∷ c ∷ d ∷ e ∷ f ∷ g ∷ i ∷ p ∷ q ∷ packet)
      → Repacks
          (a ∷ b ∷ c ∷ d ∷ e ∷ f ∷ g ∷ i ∷ p ∷ q ∷ packet)
          (unmarshal_gateway_out_packet net (a ∷ b ∷ c ∷ d ∷ e ∷ f ∷ g ∷ i ∷ p ∷ q ∷ packet))
  unfolding unmarshal_gateway_out_packet port_at
  repacks a b c d e f g i p q packet (_, (_, (_, (_, (he, (hf, (hg, (hi, (hp, (hq, _)))))))))) =
      let long =
        le→ltb (length (a ∷ b ∷ c ∷ d ∷ e ∷ f ∷ g ∷ i ∷ p ∷ q ∷ packet)) 10 (omega arith) in
      elim (Bool-cases (compare_bytes (a ∷ b ∷ c ∷ d ∷ []) packet_identifier)) [
        | inl same ↦
            rw (long, same)
              (repacked e f g i p q packet (he, (hf, (hg, (hi, tt)))) (hp, hq)
                ∙ ap (λ front. ok (front ++ e ∷ f ∷ g ∷ i ∷ p ∷ q ∷ packet))
                    (sym (compare_bytes_sound (a ∷ b ∷ c ∷ d ∷ []) packet_identifier same)))
        | inr other ↦ rw (long, other) tt
      ]

  -- Bytes that are accepted as a packet for the way out, and unpacked to an address and a packet:
  -- packing these two gives the bytes again.
  pub unmarshal-marshal_out :
      (data' : List ℕ) (r : Text × List ℕ)
      → AreBytes data'
      → unmarshal_gateway_out_packet net data' ≡ ok r
      → marshal_gateway_out_packet net r.0 r.1 ≡ ok data'
  unfolding unmarshal_gateway_out_packet
  unmarshal-marshal_out [] r bytes h = absurd (cc)
  unmarshal-marshal_out (a ∷ []) r bytes h = absurd (cc)
  unmarshal-marshal_out (a ∷ b ∷ []) r bytes h = absurd (cc)
  unmarshal-marshal_out (a ∷ b ∷ c ∷ []) r bytes h = absurd (cc)
  unmarshal-marshal_out (a ∷ b ∷ c ∷ d ∷ []) r bytes h = absurd (cc)
  unmarshal-marshal_out (a ∷ b ∷ c ∷ d ∷ e ∷ []) r bytes h = absurd (cc)
  unmarshal-marshal_out (a ∷ b ∷ c ∷ d ∷ e ∷ f ∷ []) r bytes h = absurd (cc)
  unmarshal-marshal_out (a ∷ b ∷ c ∷ d ∷ e ∷ f ∷ g ∷ []) r bytes h = absurd (cc)
  unmarshal-marshal_out (a ∷ b ∷ c ∷ d ∷ e ∷ f ∷ g ∷ i ∷ []) r bytes h = absurd (cc)
  unmarshal-marshal_out (a ∷ b ∷ c ∷ d ∷ e ∷ f ∷ g ∷ i ∷ p ∷ []) r bytes h = absurd (cc)
  unmarshal-marshal_out (a ∷ b ∷ c ∷ d ∷ e ∷ f ∷ g ∷ i ∷ p ∷ q ∷ packet) r bytes h =
      subst (Repacks (a ∷ b ∷ c ∷ d ∷ e ∷ f ∷ g ∷ i ∷ p ∷ q ∷ packet)) h
        (repacks a b c d e f g i p q packet bytes)

-- ===== src/Transport/Send/Acks.antt =====
-- src/client/transport/handler.ts, `#updatePostReceiveState`: the end of resending.
use teamspeak_js.Common.{
  ℕ, ◌<◌, ◌≡◌, ◌≢◌, ◌⊎◌, refl, true, false, Bool, ◌&&◌, ◌||◌, ◌==◌, ==_iff, if◌then◌else◌,
  Bool-cases, inl, inr, List, [], ◌∷◌, All, Option, none, some, arith,
}
use teamspeak_js.Common.Maps.{
  lookup, delete, IsMap, lookup-delete_ne, lookup-delete_self, delete-IsMap,
}
use teamspeak_js.Transport.Packet.{
  Packet, packet_type, ack, ack_low, command, command_low, get_uint16,
}
use teamspeak_js.Transport.Send.{
  Sender, ResendPacket, update_post_receive_state, acknowledge, ack_key,
}

-- Whether a packet acknowledges the packet of type `t` with the id `i`: an Ack does so for commands,
-- an AckLow for low-priority commands, by the two bytes that the payload begins with.
abbrev names_id : Option ℕ → ℕ → Bool
names_id none i = false
names_id (some id) i = id == i

abbrev pub acknowledges : Packet → (t i : ℕ) → Bool
acknowledges p t i =
    names_id (get_uint16 p.payload) i
    && ((packet_type p == ack) && (t == command)
        || (packet_type p == ack_low) && (t == command_low))

uint16_lt :
    (bytes : List ℕ) (id : ℕ) → All (λ b. b < 256) bytes → get_uint16 bytes ≡ some id → id < 0x10000
unfolding get_uint16
uint16_lt [] id h e = absurd (cc e)
uint16_lt (hi ∷ []) id h e = absurd (cc e)
uint16_lt (hi ∷ lo ∷ rest) id (a, (b, h)) e = ground (arith, e)

-- The entry of one key, where another is deleted or the same.
lookup-delete_key :
    (target id t i : ℕ) (m : List (ℕ × ResendPacket))
    → IsMap m
    → id < 0x10000
    → i < 0x10000
    → lookup (ack_key t i) (delete (ack_key target id) m)
      ≡ (if (id == i) && (target == t) then none else lookup (ack_key t i) m)
lookup-delete_key target id t i m is_map lt lt' = elim (Bool-cases ((id == i) && (target == t))) [
  | inl both ↦
      let same_id : id ≡ i = ground (arith, both) in
      let same_type : target ≡ t = ground (arith, both) in
      rw (both, same_id, same_type) (lookup-delete_self (ack_key t i) m is_map)
  | inr other ↦
      let apart : ack_key target id ≢ ack_key t i = λ e. key_apart target id t i lt lt' e other in
      rw other (lookup-delete_ne (ack_key target id) (ack_key t i) m apart)
]
  where
    key_apart :
        (target id t i : ℕ)
        → id < 0x10000
        → i < 0x10000
        → ack_key target id ≡ ack_key t i
        → ((id == i) && (target == t)) ≡ false
        → ⊥
    key_apart target id t i lt lt' e other =
        let same_type : target ≡ t = omega (arith, lt, lt', e) in
        let same_id : id ≡ i = omega (arith, lt, lt', e) in
        ground (arith, same_type, same_id, other)

lookup-acknowledge :
    (p_type t i : ℕ) (o : Option ℕ) (s : Sender)
    → IsMap s.ack_manager
    → (t ≡ command) ⊎ (t ≡ command_low)
    → i < 0x10000
    → ((id : ℕ) → o ≡ some id → id < 0x10000)
    → lookup (ack_key t i) (acknowledge p_type o s).ack_manager ≡ (
        if names_id o i
          && ((p_type == ack) && (t == command) || (p_type == ack_low) && (t == command_low))
        then none
        else lookup (ack_key t i) s.ack_manager)
unfolding acknowledge
lookup-acknowledge p_type t i none s m is_command lt lt' = refl
lookup-acknowledge p_type t i (some id) s m is_command lt lt' = by_type is_command
  where
    gone :
        (target u : ℕ)
        → lookup (ack_key u i) (delete (ack_key target id) s.ack_manager)
          ≡ (if (id == i) && (target == u) then none else lookup (ack_key u i) s.ack_manager)
    gone target u = lookup-delete_key target id u i s.ack_manager m (lt' id refl) lt

    no_ack : (b : Bool) → (b && false) ≡ false
    no_ack true = refl
    no_ack false = refl

    by_type :
        (t ≡ command) ⊎ (t ≡ command_low)
        → lookup (ack_key t i) (acknowledge p_type (some id) s).ack_manager ≡ (
            if (id == i)
              && ((p_type == ack) && (t == command) || (p_type == ack_low) && (t == command_low))
            then none
            else lookup (ack_key t i) s.ack_manager)
    by_type c = elim (Bool-cases (p_type == ack)) [
      | inl e ↦ elim c [
        | inl is ↦ rw ((==_iff p_type ack).0 e, is) (gone command command)
        | inr is ↦ rw ((==_iff p_type ack).0 e, is) (gone command command_low)
      ]
      | inr e ↦ elim (Bool-cases (p_type == ack_low)) [
        | inl low ↦ elim c [
          | inl is ↦ rw ((==_iff p_type ack_low).0 low, is) (gone command_low command)
          | inr is ↦ rw ((==_iff p_type ack_low).0 low, is) (gone command_low command_low)
        ]
        | inr low ↦ rw (e, low, no_ack (id == i)) refl
      ]
    ]

acknowledge-rest :
    (p_type : ℕ) (o : Option ℕ) (s : Sender)
    → IsMap s.ack_manager
    → IsMap (acknowledge p_type o s).ack_manager
      × (acknowledge p_type o s ≡ record s { ack_manager = (acknowledge p_type o s).ack_manager })
unfolding acknowledge
acknowledge-rest p_type none s m = (m, refl)
acknowledge-rest p_type (some id) s m = elim (Bool-cases ((p_type == ack) || (p_type == ack_low))) [
  | inl e ↦ rw e (delete-IsMap _ s.ack_manager m, refl)
  | inr e ↦ rw e (m, refl)
]

-- After a packet that was received, an entry for a command, of either priority and with an id of 16
-- bits, is gone exactly if the packet is the acknowledgement of that command, and stays as it was
-- otherwise; nothing else of the sender changes. The payload is made of bytes.
pub update_post_receive_state-acknowledges :
    (p : Packet) (t i : ℕ) (s : Sender)
    → IsMap s.ack_manager
    → All (λ b. b < 256) p.payload
    → (t ≡ command) ⊎ (t ≡ command_low)
    → i < 0x10000
    → IsMap (update_post_receive_state p s).ack_manager
      × (lookup (ack_key t i) (update_post_receive_state p s).ack_manager
          ≡ (if acknowledges p t i then none else lookup (ack_key t i) s.ack_manager))
      × (update_post_receive_state p s
          ≡ record s { ack_manager = (update_post_receive_state p s).ack_manager })
unfolding update_post_receive_state
update_post_receive_state-acknowledges p t i s m bytes is_command lt =
    let (is_map, rest) = acknowledge-rest (packet_type p) (get_uint16 p.payload) s m in
    (
      is_map,
      lookup-acknowledge (packet_type p) t i (get_uint16 p.payload) s m is_command lt
          (λ id e. uint16_lt p.payload id bytes e),
      rest,
    )

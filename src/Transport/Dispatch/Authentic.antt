-- ===== src/Transport/Dispatch/Authentic.antt =====
-- src/client/transport/handler.ts, `#decryptPacketData` in `#handleRawPacket`: datagrams that are
-- refused.
use teamspeak_js.Common.{
  ℕ, ◌≡◌, ◌⊎◌, inl, inr, refl, sym, ap, ◌∙◌, Bool, true, false, not, ◌&&◌, ◌==◌, ◌≢◌, ==_iff,
  ==-false→ne, List, [], ◌∷◌, take, drop, any, filter_by, Option, none, some, arith, Bool-cases,
  Option-cases,
}
use teamspeak_js.Transport.Packet.{
  Packet, ServerHeader, command, command_low, ack, init1, unencrypted, has_flag, packet_type,
  packet_type_of_byte, get_uint16, parse_s2c_header,
}
use teamspeak_js.Transport.Cipher.{Cipher}
use teamspeak_js.Transport.Dispatch.{
  Handler, Decrypted, may_be_unencrypted, take_id, accept, first_attempt, second_attempt,
  decrypt_packet_data, packet_received, handle_decrypted, handle_header, handle_raw_packet,
}

any-filter_by :
    (id other : ℕ) (ids : List ℕ)
    → any (λ i. i == other) (filter_by (λ i. not (i == id)) ids)
      ≡ (any (λ i. i == other) ids && not (other == id))
unfolding any filter_by
any-filter_by id other [] = refl
any-filter_by id other (i ∷ ids) = ground (arith, any-filter_by id other ids)

-- The plaintext names an id that was there; that one is there no more, and all others still are.
abbrev pub IsTaken : List ℕ → Decrypted → Type 0
IsTaken ids d =
    (id : ℕ) × (get_uint16 d.plaintext ≡ some id)
    × (any (λ i. i == id) ids ≡ true)
    × ((other : ℕ)
        → any (λ i. i == other) d.dummy_command_ids
          ≡ (any (λ i. i == other) ids && not (other == id)))

-- The key of the session opened the packet to `read`, and the ids are as they were.
abbrev pub UnderSession : List ℕ → Option (List ℕ) → Decrypted → Type 0
UnderSession ids read d =
    (d.dummy_used ≡ false) × (d.dummy_command_ids ≡ ids) × (read ≡ some d.plaintext)

-- The key of the session did not open the packet, which is an encrypted acknowledgement of a command
-- under the dummy key, and the dummy key opened it to `again`.
abbrev pub UnderDummy :
    (p_type : ℕ) (plain : Bool) → List ℕ → (read again : Option (List ℕ)) → Decrypted → Type 0
UnderDummy p_type plain ids read again d =
    (d.dummy_used ≡ true)
    × (p_type ≡ ack)
    × (plain ≡ false)
    × (read ≡ none)
    × (again ≡ some d.plaintext)
    × IsTaken ids d

accept-IsTaken :
    (bytes ids : List ℕ) (d : Decrypted) (named : Option ℕ)
    → get_uint16 bytes ≡ named
    → accept bytes (take_id named ids) ≡ some d
    → (d.dummy_used ≡ true) × (bytes ≡ d.plaintext) × IsTaken ids d
unfolding accept take_id
accept-IsTaken bytes ids d none reads e = cc e
accept-IsTaken bytes ids d (some id) reads e = elim (Bool-cases (any (λ i. i == id) ids)) [
  | inl there ↦
      let taken = filter_by (λ i. not (i == id)) ids in
      let is : record { plaintext = bytes; dummy_used = true; dummy_command_ids = taken } ≡ d =
        cc (rw there at e) in
      (
        ap (λ r. r.dummy_used) (sym is),
        ap (λ r. r.plaintext) is,
        (
          id,
          ap (λ r. get_uint16 r.plaintext) (sym is) ∙ reads,
          there,
          λ other.
              ap (λ r. any (λ i. i == other) r.dummy_command_ids) (sym is)
              ∙ any-filter_by id other ids,
        ),
      )
  | inr gone ↦ cc (rw gone at e)
]

first_attempt-keys :
    (p_type : ℕ) (plain : Bool) (ids : List ℕ) (d : Decrypted) (read again : Option (List ℕ))
    → first_attempt false ((p_type == ack) && not plain) ids read (second_attempt ids again)
      ≡ some d
    → UnderSession ids read d ⊎ UnderDummy p_type plain ids read again d
unfolding first_attempt second_attempt
first_attempt-keys p_type plain ids d (some bytes) again e =
    let is : record { plaintext = bytes; dummy_used = false; dummy_command_ids = ids } ≡ d = cc e in
    inl (
      ap (λ r. r.dummy_used) (sym is),
      ap (λ r. r.dummy_command_ids) (sym is),
      ap (λ r. some r.plaintext) is,
    )
first_attempt-keys p_type plain ids d none none e = ground arith
first_attempt-keys p_type plain ids d none (some bytes) e =
    elim (Bool-cases ((p_type == ack) && not plain)) [
      | inl retry ↦
          let (dummy, same, taken) = accept-IsTaken bytes ids d _ refl (rw retry at e) in
          inr (dummy, ground arith, encrypted plain retry, refl, ap some same, taken)
      | inr no_retry ↦ cc (rw no_retry at e)
    ]
  where
    encrypted : (b : Bool) → ((p_type == ack) && not b) ≡ true → b ≡ false
    encrypted b h = ground arith

module _ (crypt : Cipher) where
  -- No key accepts these bytes, whatever id and generation they are taken for and whatever type but
  -- Init1, which is not encrypted.
  abbrev pub Rejects : (header ciphertext tag : List ℕ) → Type 0
  Rejects header ciphertext tag =
      (t id gen : ℕ) (dummy plain : Bool)
      → t ≢ init1
      → crypt.decrypt t id gen header ciphertext tag dummy plain ≡ none

  decrypt_packet_data-Rejects :
      (p : Packet) (header ciphertext tag ids : List ℕ)
      → packet_type p ≢ init1
      → Rejects header ciphertext tag
      → decrypt_packet_data crypt p header ciphertext tag ids ≡ none
  unfolding decrypt_packet_data first_attempt second_attempt
  decrypt_packet_data-Rejects p header ciphertext tag ids is_keyed no_key =
      rw
        (
          no_key (packet_type p) p.id p.generation_id (not crypt.crypto_init_complete)
              (has_flag unencrypted p) is_keyed,
          no_key (packet_type p) p.id p.generation_id true false is_keyed,
        )
        (ground arith)

  decrypt_packet_data-plain :
      (p : Packet) (header ciphertext tag ids : List ℕ)
      → (packet_type p ≡ command) ⊎ (packet_type p ≡ command_low)
      → has_flag unencrypted p ≡ true
      → decrypt_packet_data crypt p header ciphertext tag ids ≡ none
  unfolding decrypt_packet_data any
  decrypt_packet_data-plain p header ciphertext tag ids (inl e) plain = rw (plain, e) refl
  decrypt_packet_data-plain p header ciphertext tag ids (inr e) plain = rw (plain, e) refl

  module _ (now received_at : ℕ) (raw : List ℕ) (h : Handler) where
    header_ignored :
        (parsed : ServerHeader)
        → decrypt_packet_data crypt
            (packet_received parsed received_at h)
            (take 3 (drop 8 raw))
            (drop 11 raw)
            (take 8 raw)
            h.sender.dummy_command_ids
          ≡ none
        → handle_header crypt now received_at raw (some parsed) h ≡ some h
    unfolding handle_header handle_decrypted
    header_ignored parsed e = rw e (ground arith)

    -- A datagram is ignored where its packet is not decrypted.
    handle_raw_packet-none :
        ((parsed : ServerHeader)
          → parse_s2c_header (take 3 (drop 8 raw)) ≡ some parsed
          → decrypt_packet_data crypt
              (packet_received parsed received_at h)
              (take 3 (drop 8 raw))
              (drop 11 raw)
              (take 8 raw)
              h.sender.dummy_command_ids
            ≡ none)
        → handle_raw_packet crypt now received_at raw h ≡ some h
    unfolding handle_raw_packet
    handle_raw_packet-none gone = elim (Option-cases (parse_s2c_header (take 3 (drop 8 raw)))) [
      | inl e ↦ rw e (unfold handle_header in ground arith)
      | inr (parsed, e) ↦ rw (e, header_ignored parsed (gone parsed e)) (ground arith)
    ]

    late_init1 :
        (parsed : ServerHeader)
        → packet_type_of_byte parsed.type_flagged ≡ init1
        → crypt.crypto_init_complete ≡ true
        → handle_header crypt now received_at raw (some parsed) h ≡ some h
    unfolding handle_header
    late_init1 parsed is_init1 complete = rw (is_init1, complete) refl

    read_header :
        (parsed : ServerHeader)
        → parse_s2c_header (take 3 (drop 8 raw)) ≡ some parsed
        → handle_header crypt now received_at raw (some parsed) h ≡ some h
        → handle_raw_packet crypt now received_at raw h ≡ some h
    unfolding handle_raw_packet
    read_header parsed e ignored = rw (e, ignored) (ground arith)

    -- A datagram that no key accepts changes nothing, unless it is an Init1 before the crypto init.
    pub handle_raw_packet-Rejects :
        (parsed : ServerHeader)
        → parse_s2c_header (take 3 (drop 8 raw)) ≡ some parsed
        → (packet_type_of_byte parsed.type_flagged ≢ init1) ⊎ (crypt.crypto_init_complete ≡ true)
        → Rejects (take 3 (drop 8 raw)) (drop 11 raw) (take 8 raw)
        → handle_raw_packet crypt now received_at raw h ≡ some h
    unfolding packet_type packet_received
    handle_raw_packet-Rejects parsed e keyed no_key =
        elim (Bool-cases (packet_type_of_byte parsed.type_flagged == init1)) [
          | inl is ↦ read_header parsed e (elim keyed [
            | inl other ↦ absurd (other ((==_iff _ _).0 is))
            | inr complete ↦ late_init1 parsed ((==_iff _ _).0 is) complete
          ])
          | inr other ↦ read_header parsed e (
              header_ignored parsed (
                decrypt_packet_data-Rejects (packet_received parsed received_at h) _ _ _ _
                  (==-false→ne _ _ other) no_key))
        ]

    -- A command that is sent unencrypted changes nothing, whatever the cipher says of it.
    pub handle_raw_packet-unencrypted :
        (parsed : ServerHeader)
        → parse_s2c_header (take 3 (drop 8 raw)) ≡ some parsed
        → (packet_type_of_byte parsed.type_flagged ≡ command)
          ⊎ (packet_type_of_byte parsed.type_flagged ≡ command_low)
        → has_flag unencrypted (packet_received parsed received_at h) ≡ true
        → handle_raw_packet crypt now received_at raw h ≡ some h
    unfolding packet_type packet_received
    handle_raw_packet-unencrypted parsed e is_command plain = handle_raw_packet-none λ parsed' e'.
        let same : parsed ≡ parsed' = cc (e, e') in
        rw (← same) (
          decrypt_packet_data-plain (packet_received parsed received_at h) _ _ _ _ is_command plain)

  -- After the crypto init a packet that is decrypted was opened by the key of the session, and the ids
  -- of commands under the dummy key stay; or it is an encrypted acknowledgement that only the dummy key
  -- opens, and it names one of these ids, which is taken out so that it serves only once.
  pub decrypt_packet_data-dummy :
      (p : Packet) (header ciphertext tag ids : List ℕ) (d : Decrypted)
      → crypt.crypto_init_complete ≡ true
      → decrypt_packet_data crypt p header ciphertext tag ids ≡ some d
      → UnderSession ids
          (crypt.decrypt
            (packet_type p)
            p.id
            p.generation_id
            header
            ciphertext
            tag
            false
            (has_flag unencrypted p))
          d
        ⊎ UnderDummy
            (packet_type p)
            (has_flag unencrypted p)
            ids
            (crypt.decrypt
              (packet_type p)
              p.id
              p.generation_id
              header
              ciphertext
              tag
              false
              (has_flag unencrypted p))
            (crypt.decrypt (packet_type p) p.id p.generation_id header ciphertext tag true false)
            d
  unfolding decrypt_packet_data
  decrypt_packet_data-dummy p header ciphertext tag ids d complete e =
      elim (Bool-cases (has_flag unencrypted p && not (may_be_unencrypted (packet_type p)))) [
        | inl refused ↦ cc (rw refused at e)
        | inr allowed ↦
            first_attempt-keys (packet_type p) (has_flag unencrypted p) ids d _ _
              (rw (allowed, complete) at e)
      ]

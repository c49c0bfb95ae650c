-- ===== src/Sftp/Channels/Sessions.antt =====
-- pkg/sftpserver/server.go: what the requests on session channels are granted.
use viking_ftpd.Prelude.{
  take-append, ℕ, ◌+◌, ◌-◌, ◌*◌, ◌/◌, ◌%◌, ◌^◌, ◌<◌, ◌≤◌, ◌≡◌, refl, ap, ◌∙◌, arith, Bool, true,
  false, Option, none, some, List, [], ◌∷◌, ◌++◌, map, ltb, length, take, drop, Bytes, codes, equal,
  equal_iff, Bool-cases, ◌⊎◌, inl, inr, All, length-append,
}
use viking_ftpd.Sftp.Channels.{
  uint32_of, slice, subsystem_name, ChannelRequest, asks_for_sftp, refuse_first, handle_session,
  ssh_string, NewChannel, handle_channel, handle_channels, IsPacket, Granted, count_true, IsSession,
  IsHandled, AreHandled,
}

digits_of :
    (n : ℕ)
    → n < 2 ^ 32
    → ((n / 2 ^ 24 * 256 + (n / 2 ^ 16) % 256) * 256 + (n / 2 ^ 8) % 256) * 256 + n % 256 ≡ n
digits_of n h = omega arith

slice-fits :
    (from to : ℕ) (payload : Bytes)
    → from ≤ to
    → to ≤ length payload
    → slice from to payload ≡ some (take (to - from) (drop from payload))
slice-fits from to payload h k =
    let ordered : ltb to from ≡ false = ground arith in
    let within : ltb (length payload) to ≡ false = ground arith in rw (ordered, within) refl

subsystem_name-fits :
    (payload : Bytes) (n : ℕ)
    → uint32_of payload ≡ n
    → 4 + n ≤ length payload
    → length payload < 2 ^ 32
    → subsystem_name payload ≡ some (take n (drop 4 payload))
unfolding subsystem_name
subsystem_name-fits payload n is h k =
    let long : ltb (length payload) 4 ≡ false = ground arith in
    let fits : ltb ((length payload - 4) % 2 ^ 32) n ≡ false = ground arith in
    let end : (4 + n) % 2 ^ 32 ≡ 4 + n = omega arith in
    let size : 4 + n - 4 ≡ n = omega arith in
    rw (long, is, fits, end, slice-fits 4 (4 + n) payload (omega arith) h, size) refl

-- The name in a payload comes back, whatever follows it: a payload of less than 4 GiB holds the
-- name's length in four bytes, most significant first, and then the name.
pub subsystem_name-ssh_string :
    (name rest : Bytes)
    → 4 + length name + length rest < 2 ^ 32
    → subsystem_name (ssh_string name ++ rest) ≡ some name
subsystem_name-ssh_string name rest h =
    let size = length-append name rest in
    subsystem_name-fits (ssh_string name ++ rest) (length name)
      (digits_of (length name) (omega arith)) (omega (arith, size)) (omega (arith, size))
    ∙ ap some (take-append name rest)

-- The slice stays in the payload.
subsystem_name-returns :
    (payload : Bytes)
    → length payload < 2 ^ 32
    → (name : Bytes) × (subsystem_name payload ≡ some name)
unfolding subsystem_name
subsystem_name-returns payload h = elim (Bool-cases (ltb (length payload) 4)) [
  | inl short ↦ ([], rw short refl)
  | inr long ↦ elim (Bool-cases (ltb ((length payload - 4) % 2 ^ 32) (uint32_of payload))) [
    | inl less ↦ ([], rw (long, less) refl)
    | inr fits ↦ (_, subsystem_name-fits payload (uint32_of payload) refl (ground arith) h)
  ]
]

asks_for_sftp-cases :
    (r : ChannelRequest)
    → IsPacket r
    → (asks_for_sftp r ≡ some false)
      ⊎ ((asks_for_sftp r ≡ some true)
          × (r.kind ≡ codes "subsystem")
          × (subsystem_name r.payload ≡ some (codes "sftp")))
unfolding asks_for_sftp
asks_for_sftp-cases r h =
    let (name, is) = subsystem_name-returns r.payload h in
    elim (Bool-cases (equal r.kind (codes "subsystem"))) [
      | inr other ↦ inl (rw other refl)
      | inl subsystem ↦ elim (Bool-cases (equal name (codes "sftp"))) [
        | inr other ↦ inl (rw (subsystem, is, other) refl)
        | inl sftp ↦ inr (
          rw (subsystem, is, sftp) refl,
          (equal_iff r.kind (codes "subsystem")).0 subsystem,
          is ∙ ap some ((equal_iff name (codes "sftp")).0 sftp),
        )
      ]
    ]

refused-Granted : (rs : List ChannelRequest) → Granted rs (map (λ _. false) rs)
refused-Granted [] = tt
refused-Granted (r ∷ rs) = (tt, refused-Granted rs)

count_true-refused : (rs : List ChannelRequest) → count_true (map (λ _. false) rs) ≡ 0
count_true-refused [] = refl
count_true-refused (r ∷ rs) = omega (arith, count_true-refused rs)

refuse_first-IsSession :
    (r : ChannelRequest) (rs : List ChannelRequest) (s : Option (List Bool × Bool))
    → IsSession rs s
    → IsSession (r ∷ rs) (refuse_first s)
refuse_first-IsSession r rs none h = h
refuse_first-IsSession r rs (some (replies, served)) (granted, one) =
    ((tt, granted), omega (arith, one))

-- The requests of one channel.
handle_session-IsSession :
    (rs : List ChannelRequest) → All IsPacket rs → IsSession rs (handle_session rs)
unfolding handle_session
handle_session-IsSession [] h = (tt, refl)
handle_session-IsSession (r ∷ rs) (h, hs) = elim (asks_for_sftp-cases r h) [
  | inl other ↦
      rw other (refuse_first-IsSession r rs (handle_session rs) (handle_session-IsSession rs hs))
  | inr (asks, kind, name) ↦
      rw asks (((kind, name), refused-Granted rs), omega (arith, count_true-refused rs))
]

handle_channel-IsHandled :
    (c : NewChannel) → All IsPacket c.requests → IsHandled c (handle_channel c)
handle_channel-IsHandled c h = elim (Bool-cases (equal c.channel_type (codes "session"))) [
  | inr other ↦
      rw other (λ same. let no_ = (equal_iff c.channel_type (codes "session")).1 same in cc)
  | inl session ↦
      let is = (equal_iff c.channel_type (codes "session")).0 session in
      elim (Bool-cases c.accept_succeeds) [
        | inl accepts ↦ rw (session, accepts) (is, handle_session-IsSession c.requests h)
        | inr fails ↦ rw (session, fails) (is, refl)
      ]
]

-- For every channel of a connection, in order: one that is not a session is rejected; on a session
-- channel each request gets one reply, at most one request is granted, exactly if the SFTP server
-- runs, and that one asks for the subsystem "sftp"; a shell or a command is never granted. No slice
-- of a payload is out of range.
pub handle_channels-AreHandled :
    (cs : List NewChannel)
    → All (λ c. All IsPacket c.requests) cs
    → AreHandled cs (handle_channels cs)
unfolding handle_channels
handle_channels-AreHandled [] h = tt
handle_channels-AreHandled (c ∷ cs) (h, hs) =
    (handle_channel-IsHandled c h, handle_channels-AreHandled cs hs)

-- ===== src/Sftp/Channels.antt =====
-- pkg/sftpserver/server.go: the requests on a session channel, and the channels of a connection.
pub mod Sessions
use viking_ftpd.Prelude.{
  ℕ, zero, suc, ◌+◌, ◌-◌, ◌*◌, ◌/◌, ◌%◌, ◌^◌, ◌<◌, ◌≤◌, ◌≡◌, ◌≢◌, refl, sym, ap, ◌∙◌, arith, Bool,
  true, false, not, ◌&&◌, Option, none, some, List, [], ◌∷◌, ◌++◌, map, if◌then◌else◌, ltb, length,
  take, drop, Bytes, codes, equal, Bool-cases, ◌⊎◌, inl, inr, All,
}

-- binary.BigEndian.Uint32 on the first four bytes
abbrev pub uint32_of : Bytes → ℕ
uint32_of (a ∷ b ∷ c ∷ d ∷ rest) = ((a * 256 + b) * 256 + c) * 256 + d
uint32_of _ = 0

-- payload[from:to], which panics unless from <= to <= len(payload)
abbrev pub slice : ℕ → ℕ → Bytes → Option Bytes
slice from to payload =
    if ltb to from
    then none
    else (if ltb (length payload) to then none else some (take (to - from) (drop from payload)))

-- subsystemName; none is a panic. `uint32(len(payload)-4)` and `4+length` are of 32 bits.
unfoldable pub subsystem_name : Bytes → Option Bytes
subsystem_name payload =
    if ltb (length payload) 4
    then some []
    else (let n = uint32_of payload in
        if ltb ((length payload - 4) % 2 ^ 32) n
        then some []
        else slice 4 ((4 + n) % 2 ^ 32) payload)

-- ssh.Request
pub record ChannelRequest : Type 0 where
  pub kind : Bytes
  pub payload : Bytes

abbrev pub is_sftp : Option Bytes → Option Bool
is_sftp none = none
is_sftp (some name) = some (equal name (codes "sftp"))

-- the condition of handleSession
unfoldable pub asks_for_sftp : ChannelRequest → Option Bool
unfolding subsystem_name
asks_for_sftp r =
    if equal r.kind (codes "subsystem") then is_sftp (subsystem_name r.payload) else some false

-- The replies to the requests of a channel in order, and whether serveSFTP ran; none is a panic.
-- Once the subsystem is granted, a goroutine refuses every later request.
abbrev pub refuse_first : Option (List Bool × Bool) → Option (List Bool × Bool)
refuse_first none = none
refuse_first (some (replies, served)) = some (false ∷ replies, served)

-- one request of handleSession
abbrev pub next_request :
    Option Bool → List ChannelRequest → Option (List Bool × Bool) → Option (List Bool × Bool)
next_request none later rest = none
next_request (some true) later rest = some (true ∷ map (λ _. false) later, true)
next_request (some false) later rest = refuse_first rest

unfoldable pub handle_session : List ChannelRequest → Option (List Bool × Bool)
handle_session [] = some ([], false)
handle_session (r ∷ rs) = next_request (asks_for_sftp r) rs (handle_session rs)

-- the payload of a request for a subsystem, as RFC 4254 lays it out
abbrev pub ssh_string : Bytes → Bytes
ssh_string name =
    let n = length name in n / 2 ^ 24 ∷ (n / 2 ^ 16) % 256 ∷ (n / 2 ^ 8) % 256 ∷ n % 256 ∷ name

-- ssh.NewChannel: its type, whether Accept succeeds, and the requests that arrive on it
pub record NewChannel : Type 0 where
  pub channel_type : Bytes
  pub accept_succeeds : Bool
  pub requests : List ChannelRequest

-- `session` is the goroutine that handleSession runs in.
pub data ChannelResult : Type 0 where
  rejected not_accepted : ChannelResult
  session : Option (List Bool × Bool) → ChannelResult

abbrev pub handle_channel : NewChannel → ChannelResult
handle_channel c =
    if not (equal c.channel_type (codes "session"))
    then ChannelResult.rejected
    else (if c.accept_succeeds
        then ChannelResult.session (handle_session c.requests)
        else ChannelResult.not_accepted)

-- handleChannels
unfoldable pub handle_channels : List NewChannel → List ChannelResult
handle_channels [] = []
handle_channels (c ∷ cs) = handle_channel c ∷ handle_channels cs

-- The payload is no longer than a uint32 counts; an SSH packet is much shorter.
abbrev pub IsPacket : ChannelRequest → Type 0
IsPacket r = length r.payload < 2 ^ 32

-- A reply of true stands at a request for the subsystem "sftp"; there is one reply for each request.
abbrev pub Granted : List ChannelRequest → List Bool → Type 0
Granted [] [] = Unit
Granted [] (b ∷ bs) = ⊥
Granted (r ∷ rs) [] = ⊥
Granted (r ∷ rs) (b ∷ bs) =
    (if b
      then (r.kind ≡ codes "subsystem") × (subsystem_name r.payload ≡ some (codes "sftp"))
      else Unit)
    × Granted rs bs

abbrev pub count_true : List Bool → ℕ
count_true [] = 0
count_true (b ∷ bs) = (if b then 1 else 0) + count_true bs

-- the result of handleSession: it does not panic, and grants at most one request
abbrev pub IsSession : List ChannelRequest → Option (List Bool × Bool) → Type 0
IsSession rs none = ⊥
IsSession rs (some (replies, served)) =
    Granted rs replies × (count_true replies ≡ (if served then 1 else 0))

abbrev pub IsHandled : NewChannel → ChannelResult → Type 0
IsHandled c ChannelResult.rejected = c.channel_type ≢ codes "session"
IsHandled c ChannelResult.not_accepted =
    (c.channel_type ≡ codes "session") × (c.accept_succeeds ≡ false)
IsHandled c (ChannelResult.session s) = (c.channel_type ≡ codes "session") × IsSession c.requests s

abbrev pub AreHandled : List NewChannel → List ChannelResult → Type 0
AreHandled [] [] = Unit
AreHandled [] (x ∷ xs) = ⊥
AreHandled (c ∷ cs) [] = ⊥
AreHandled (c ∷ cs) (x ∷ xs) = IsHandled c x × AreHandled cs xs

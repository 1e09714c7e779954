-- ===== src/SshProxy/Forward.antt =====
-- internal/sshproxy/forward.go: the connection to the upstream, the channels and the global requests.
-- What the SSH library answers is an argument.
pub mod Channel
pub mod Invariant
pub mod Measure
pub mod Progress
pub mod Ends
pub mod Upstream
pub mod Channels
pub mod Requests
pub mod Tests
use forge_proxy.Base.{
  ℕ, ◌*◌, Bytes, codes, is_empty, Bool, true, false, not, ◌||◌, List, [], ◌∷◌, Option, none, some,
  ◌=ᵇ◌, if◌then◌else◌,
}
use forge_proxy.Clock.{second}
use forge_proxy.User.{User}
use forge_proxy.SshCa
use forge_proxy.SshCa.{Certificate, mint}

abbrev pub dial_timeout : ℕ
dial_timeout = 10 * second

abbrev pub cert_ttl : ℕ
cert_ttl = 120 * second

-- What `Handle` is given: whether there is a connection to the client, the host of the upstream, and
-- the user.
pub record AuthenticatedConn : Type 0 where
  pub server_conn : Bool
  pub target : Option Bytes
  pub user : Option User

-- `ssh.ClientConfig`: who signs in to the upstream, and with which certificate.
pub record ClientConfig : Type 0 where
  pub user : Bytes
  pub cert : Certificate
  pub timeout : ℕ

pub data Handshake : Type 0 where
  accepted host_key_mismatch handshake_failed : Handshake

pub data Error : Type 0 where
  nil_field empty_email : Error
  mint_failed : SshCa.Error → Error
  dial_failed upstream_failed : Error

-- What is done to the upstream, in order.
pub data Action : Type 0 where
  dials : Bytes → Action
  signs_in : Bytes → ClientConfig → Action
  closes : Bytes → Action

pub data Opened : Type 0 where
  refused : Error → Opened
  opened : Bytes → Opened

-- What the surroundings answer: the context is cancelled, the crypto library fails, the dial fails.
pub record Outside : Type 0 where
  pub signer : Bool
  pub is_cancelled : Bool
  pub crypto_fails : Bool
  pub dial_fails : Bool
  pub handshake : Bytes → ClientConfig → Handshake
  pub now : ℕ

config_for : Bytes → Certificate → ClientConfig
config_for principal cert = record { user = principal; cert = cert; timeout = dial_timeout }

shaken : Bytes → ClientConfig → Handshake → Opened × List Action
shaken host cfg accepted = (opened host, dials host ∷ signs_in host cfg ∷ [])
shaken host cfg host_key_mismatch =
    (refused upstream_failed, dials host ∷ signs_in host cfg ∷ closes host ∷ [])
shaken host cfg handshake_failed =
    (refused upstream_failed, dials host ∷ signs_in host cfg ∷ closes host ∷ [])

dialled : Outside → Bytes → ClientConfig → Opened × List Action
unfolding shaken
dialled o host cfg =
    if o.dial_fails
    then (refused dial_failed, dials host ∷ [])
    else shaken host cfg (o.handshake host cfg)

minted : Outside → Bytes → Bytes → SshCa.Result → Opened × List Action
unfolding dialled config_for
minted o principal host (SshCa.Result.err e) = (refused (mint_failed e), [])
minted o principal host (SshCa.Result.ok cert) = dialled o host (config_for principal cert)

certified : Outside → Bytes → Bytes → Opened × List Action
unfolding minted mint
certified o principal host =
    minted o principal host (mint o.signer principal cert_ttl o.is_cancelled o.crypto_fails o.now)

for_user : Outside → User → Bytes → Opened × List Action
unfolding certified
for_user o u host = if is_empty u.email then (refused empty_email, []) else certified o u.email host

with_fields : Outside → Bool → Option Bytes → Option User → Opened × List Action
unfolding for_user
with_fields o false target user = (refused nil_field, [])
with_fields o true none user = (refused nil_field, [])
with_fields o true (some host) none = (refused nil_field, [])
with_fields o true (some host) (some u) = for_user o u host

-- `Handle` up to the open connection to the upstream; none is no connection at all.
unfoldable pub handle : Outside → Option AuthenticatedConn → Opened × List Action
unfolding with_fields
handle o none = (refused nil_field, [])
handle o (some ac) = with_fields o ac.server_conn ac.target ac.user

-- A channel that the client opens.
pub record NewChannel : Type 0 where
  pub channel_type : Bytes
  pub extra : Bytes

pub data Reason : Type 0 where
  unknown_channel_type connection_failed : Reason
  of_upstream : ℕ → Reason

pub data OpenAnswer : Type 0 where
  channel_opened : OpenAnswer
  channel_refused : ℕ → Bytes → OpenAnswer
  open_failed : OpenAnswer

pub data ChannelAction : Type 0 where
  rejects : Reason → Bytes → ChannelAction
  opens_upstream : Bytes → Bytes → ChannelAction
  accepts proxies closes_upstream : ChannelAction

-- The client's side, once the upstream has opened its own: `Accept` fails or not.
accepted_by : Bool → List ChannelAction
accepted_by true = accepts ∷ closes_upstream ∷ []
accepted_by false = accepts ∷ proxies ∷ []

answered : Bool → OpenAnswer → List ChannelAction
unfolding accepted_by
answered accept_fails (channel_refused code message) = rejects (of_upstream code) message ∷ []
answered accept_fails open_failed =
    rejects connection_failed (codes "upstream rejected channel") ∷ []
answered accept_fails channel_opened = accepted_by accept_fails

unfoldable pub is_forwarded_type : Bytes → Bool
unfolding ◌=ᵇ◌
is_forwarded_type t = (t =ᵇ codes "session") || (t =ᵇ codes "direct-tcpip")

-- `handleChannel`
unfoldable pub handle_channel :
    (Bytes → Bytes → OpenAnswer) → Bool → NewChannel → List ChannelAction
unfolding is_forwarded_type answered
handle_channel upstream accept_fails ch =
    if not (is_forwarded_type ch.channel_type)
    then rejects unknown_channel_type (codes "channel type not supported") ∷ []
    else opens_upstream ch.channel_type ch.extra
      ∷ answered accept_fails (upstream ch.channel_type ch.extra)

-- `ssh.Request`
pub record Request : Type 0 where
  pub request_type : Bytes
  pub want_reply : Bool
  pub payload : Bytes

pub record Reply : Type 0 where
  pub ok : Bool
  pub payload : Bytes

-- What one request does: it is sent on or not, and replied to or not.
pub record Effect : Type 0 where
  pub sent : List Request
  pub replies : List Reply

reply_if : Bool → Bool → Bytes → List Reply
reply_if true ok payload = record { ok = ok; payload = payload } ∷ []
reply_if false ok payload = []

-- A failure to send counts as a refusal.
unfoldable pub is_ok : Option Reply → Bool
is_ok none = false
is_ok (some r) = r.ok

-- A reverse forward.
unfoldable pub is_reverse : Request → Bool
unfolding ◌=ᵇ◌
is_reverse r =
    (r.request_type =ᵇ codes "tcpip-forward") || (r.request_type =ᵇ codes "cancel-tcpip-forward")

sent_on : {S : Type 0} → Request → Option Reply → S → Effect × Bool × S
unfolding reply_if
sent_on r none s = (record { sent = r ∷ []; replies = reply_if r.want_reply false [] }, true, s)
sent_on r (some a) s =
    (record { sent = r ∷ []; replies = reply_if r.want_reply a.ok a.payload }, false, s)

module _ {S : Type 0} (send : Request → S → Option Reply × S) where
  -- `forwardClientRequest`
  unfoldable pub forward_client_request : Request → S → Effect × S
  unfolding reply_if is_ok ◌=ᵇ◌
  forward_client_request r s =
      if r.request_type =ᵇ codes "auth-agent-req@openssh.com"
      then (record { sent = []; replies = reply_if r.want_reply false [] }, s)
      else (
        record { sent = r ∷ []; replies = reply_if r.want_reply (is_ok (send r s).0) [] },
        (send r s).1,
      )

  -- One global request, and whether sending it failed.
  global_request : Request → S → Effect × Bool × S
  unfolding is_reverse reply_if sent_on
  global_request r s =
      if is_reverse r
      then (record { sent = []; replies = reply_if r.want_reply false [] }, false, s)
      else sent_on r (send r s).0 (send r s).1

  -- `forwardGlobalRequests`: the effect of each request that is read, until sending one fails.
  unfoldable pub forward_global_requests : List Request → S → List Effect × S
  unfolding global_request
  forward_global_requests [] s = ([], s)
  forward_global_requests (r ∷ rs) s =
      let (e, stops, s') = global_request r s in
      let rest = forward_global_requests rs s' in
      if stops then (e ∷ [], s') else (e ∷ rest.0, rest.1)

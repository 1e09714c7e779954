-- ===== src/SshProxy/Forward/Upstream.antt =====
-- Who is signed in to the upstream, and what is left open.
use forge_proxy.Base.{
  ℕ, ◌+◌, ◌*◌, ◌≤◌, Bytes, codes, is_empty, Bool, true, false, not, List, [], ◌∷◌, ◌≡◌, ◌≢◌, ◌⊎◌,
  inl, inr, refl, Option, none, some, arith, Bool-cases, All, if◌then◌else◌,
}
use forge_proxy.Clock.{second}
use forge_proxy.User.{User}
use forge_proxy.SshCa
use forge_proxy.SshCa.{Certificate, mint, mint-ok, valid_before_skew, IsValidAt}
use forge_proxy.SshProxy.Forward.{
  AuthenticatedConn, ClientConfig, Handshake, accepted, host_key_mismatch, handshake_failed, Error,
  Action, dials, signs_in, closes, Opened, refused, opened, Outside, cert_ttl, config_for, shaken,
  dialled, minted, certified, empty_email, for_user, with_fields, handle,
}

-- Whether a connection to the upstream is open after the actions: one is where the sign-in was
-- tried, since that needs a dial that succeeded, unless it is closed after that.
abbrev any_closes : List Action → Bool
any_closes [] = false
any_closes (closes host ∷ acts) = true
any_closes (dials host ∷ acts) = any_closes acts
any_closes (signs_in host cfg ∷ acts) = any_closes acts

abbrev pub left_open : List Action → Bool
left_open [] = false
left_open (dials host ∷ acts) = left_open acts
left_open (signs_in host cfg ∷ acts) = not (any_closes acts)
left_open (closes host ∷ acts) = left_open acts

-- A sign-in as the user: with a certificate for the e-mail address, which is not empty, that the CA
-- has issued for at most two minutes.
pub record IsFor (now : ℕ) (u : User) (cfg : ClientConfig) : Type 0 where
  pub named : u.email ≢ []
  pub user : cfg.user ≡ u.email
  pub principal : cfg.cert.valid_principals ≡ u.email ∷ []
  pub only_terminal : cfg.cert.extensions ≡ (codes "permit-pty", []) ∷ []
  pub short : cfg.cert.valid_before * second ≤ now + cert_ttl

-- Every sign-in among the actions is that of the user.
abbrev pub MaySignIn : ℕ → Option User → Action → Type 0
MaySignIn now (some u) (signs_in host cfg) = IsFor now u cfg
MaySignIn now none (signs_in host cfg) = ⊥
MaySignIn now user (dials host) = Unit
MaySignIn now user (closes host) = Unit

abbrev pub Ended : Option Bytes → Opened × List Action → Type 0
Ended target (r, acts) =
    ((host : Bytes) × (r ≡ opened host) × (target ≡ some host) × (left_open acts ≡ true))
    ⊎ ((e : Error) × (r ≡ refused e) × (left_open acts ≡ false))

abbrev Sound : Outside → Option User → Option Bytes → Opened × List Action → Type 0
Sound o user target (r, acts) = All (MaySignIn o.now user) acts × Ended target (r, acts)

shaken-Sound :
    (o : Outside) (u : User) (host : Bytes) (cfg : ClientConfig) (answer : Handshake)
    → IsFor o.now u cfg
    → Sound o (some u) (some host) (shaken host cfg answer)
unfolding shaken
shaken-Sound o u host cfg accepted i = ((tt, (i, tt)), inl (host, refl, refl, refl))
shaken-Sound o u host cfg host_key_mismatch i = ((tt, (i, (tt, tt))), inr (_, refl, refl))
shaken-Sound o u host cfg handshake_failed i = ((tt, (i, (tt, tt))), inr (_, refl, refl))

dialled-Sound :
    (o : Outside) (u : User) (host : Bytes) (cfg : ClientConfig)
    → IsFor o.now u cfg
    → Sound o (some u) (some host) (dialled o host cfg)
unfolding dialled
dialled-Sound o u host cfg i = elim (Bool-cases o.dial_fails) [
  | inl fails ↦ rw fails ((tt, tt), inr (_, refl, refl))
  | inr reached ↦ rw reached (shaken-Sound o u host cfg (o.handshake host cfg) i)
]

config_for-IsFor :
    (o : Outside) (u : User) (cert : Certificate)
    → mint o.signer u.email cert_ttl o.is_cancelled o.crypto_fails o.now ≡ SshCa.Result.ok cert
    → valid_before_skew ≤ o.now
    → IsFor o.now u (config_for u.email cert)
unfolding config_for
config_for-IsFor o u cert h late =
    let (principal, named, _, extensions, short, _) =
      mint-ok o.signer u.email cert_ttl o.is_cancelled o.crypto_fails o.now 0 cert h late
        (omega arith) (omega arith) in
    record {
      named = named;
      user = refl;
      principal = principal;
      only_terminal = extensions;
      short = short;
    }

minted-Sound :
    (o : Outside) (u : User) (host : Bytes) (r : SshCa.Result)
    → mint o.signer u.email cert_ttl o.is_cancelled o.crypto_fails o.now ≡ r
    → valid_before_skew ≤ o.now
    → Sound o (some u) (some host) (minted o u.email host r)
unfolding minted
minted-Sound o u host (SshCa.Result.err e) h late = (tt, inr (_, refl, refl))
minted-Sound o u host (SshCa.Result.ok cert) h late =
    dialled-Sound o u host (config_for u.email cert) (config_for-IsFor o u cert h late)

certified-Sound :
    (o : Outside) (u : User) (host : Bytes)
    → valid_before_skew ≤ o.now
    → Sound o (some u) (some host) (certified o u.email host)
unfolding certified
certified-Sound o u host late =
    minted-Sound o u host (mint o.signer u.email cert_ttl o.is_cancelled o.crypto_fails o.now) refl
      late

if_keeps :
    (P : Opened × List Action → Type 0) (b : Bool) (x y : Opened × List Action)
    → P x
    → P y
    → P (if b then x else y)
if_keeps P true x y h k = h
if_keeps P false x y h k = k

for_user-Sound :
    (o : Outside) (u : User) (host : Bytes)
    → valid_before_skew ≤ o.now
    → Sound o (some u) (some host) (for_user o u host)
unfolding for_user
for_user-Sound o u host late =
    if_keeps (Sound o (some u) (some host)) (is_empty u.email) (refused empty_email, [])
      (certified o u.email host) (tt, inr (_, refl, refl)) (certified-Sound o u host late)

with_fields-Sound :
    (o : Outside) (server_conn : Bool) (target : Option Bytes) (user : Option User)
    → valid_before_skew ≤ o.now
    → Sound o user target (with_fields o server_conn target user)
unfolding with_fields
with_fields-Sound o false target user late = (tt, inr (_, refl, refl))
with_fields-Sound o true none user late = (tt, inr (_, refl, refl))
with_fields-Sound o true (some host) none late = (tt, inr (_, refl, refl))
with_fields-Sound o true (some host) (some u) late = for_user-Sound o u host late

-- Nobody is signed in to the upstream but the user of the connection, with a certificate for no
-- other name than the user's e-mail address, which is not empty, that allows a terminal only and
-- ends within two minutes. The forwarder goes on with an open connection to the host of the target,
-- or it ends with an error and leaves no connection open.
pub handle_lem :
    (o : Outside) (ac : AuthenticatedConn)
    → valid_before_skew ≤ o.now
    → All (MaySignIn o.now ac.user) (handle o (some ac)).1 × Ended ac.target (handle o (some ac))
unfolding handle
handle_lem o ac late = with_fields-Sound o ac.server_conn ac.target ac.user late

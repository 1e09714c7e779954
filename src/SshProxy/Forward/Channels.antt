-- ===== src/SshProxy/Forward/Channels.antt =====
-- What becomes of a channel that the client opens.
use forge_proxy.Base.{
  ℕ, suc, Bytes, codes, Bool, true, false, List, [], ◌∷◌, ◌≡◌, ◌⊎◌, inl, inr, refl, arith, =ᵇ_iff,
  Bool-cases, All,
}
use forge_proxy.SshProxy.Forward.{
  NewChannel, OpenAnswer, channel_opened, channel_refused, open_failed, ChannelAction, rejects,
  opens_upstream, accepts, proxies, closes_upstream, accepted_by, answered, is_forwarded_type,
  handle_channel,
}

-- What becomes of a channel.
abbrev pub answers : List ChannelAction → ℕ
answers [] = 0
answers (rejects reason message ∷ acts) = suc (answers acts)
answers (accepts ∷ acts) = suc (answers acts)
answers (opens_upstream t extra ∷ acts) = answers acts
answers (proxies ∷ acts) = answers acts
answers (closes_upstream ∷ acts) = answers acts

abbrev pub handed_over : List ChannelAction → ℕ
handed_over [] = 0
handed_over (proxies ∷ acts) = suc (handed_over acts)
handed_over (closes_upstream ∷ acts) = suc (handed_over acts)
handed_over (rejects reason message ∷ acts) = handed_over acts
handed_over (accepts ∷ acts) = handed_over acts
handed_over (opens_upstream t extra ∷ acts) = handed_over acts

-- The channel that the upstream opens for the client's, if it is asked at all.
abbrev pub IsAsked : Bytes → Bytes → ChannelAction → Type 0
IsAsked t extra (opens_upstream t' extra') =
    (t' ≡ t) × (extra' ≡ extra) × ((t ≡ codes "session") ⊎ (t ≡ codes "direct-tcpip"))
IsAsked t extra (rejects reason message) = Unit
IsAsked t extra accepts = Unit
IsAsked t extra proxies = Unit
IsAsked t extra closes_upstream = Unit

abbrev pub opened_channels : OpenAnswer → ℕ
opened_channels channel_opened = 1
opened_channels (channel_refused code message) = 0
opened_channels open_failed = 0

answered-counts :
    (fails : Bool) (a : OpenAnswer) (t extra : Bytes)
    → (answers (answered fails a) ≡ 1)
      × (handed_over (answered fails a) ≡ opened_channels a)
      × All (IsAsked t extra) (answered fails a)
unfolding answered accepted_by
answered-counts true channel_opened t extra = (refl, refl, (tt, (tt, tt)))
answered-counts false channel_opened t extra = (refl, refl, (tt, (tt, tt)))
answered-counts fails (channel_refused code message) t extra = (refl, refl, (tt, tt))
answered-counts fails open_failed t extra = (refl, refl, (tt, tt))

forwarded_type :
    (t : Bytes) → is_forwarded_type t ≡ true → (t ≡ codes "session") ⊎ (t ≡ codes "direct-tcpip")
unfolding is_forwarded_type
forwarded_type t h = ground (arith, =ᵇ_iff t (codes "session"), =ᵇ_iff t (codes "direct-tcpip"))

handed_cases :
    {n : ℕ} (a : OpenAnswer) → n ≡ opened_channels a → (n ≡ 0) ⊎ ((n ≡ 1) × (a ≡ channel_opened))
handed_cases channel_opened h = inr (h, refl)
handed_cases (channel_refused code message) h = inl h
handed_cases open_failed h = inl h

-- A channel of the client is rejected or accepted, once. The upstream is asked only for a session or
-- a direct forward, with the client's own type and data, and a channel that it opens is proxied or
-- closed again; where it opens none, nothing is proxied.
pub handle_channel_lem :
    (upstream : Bytes → Bytes → OpenAnswer) (accept_fails : Bool) (ch : NewChannel)
    → let acts = handle_channel upstream accept_fails ch in
      (answers acts ≡ 1)
      × All (IsAsked ch.channel_type ch.extra) acts
      × ((handed_over acts ≡ 0)
          ⊎ ((handed_over acts ≡ 1) × (upstream ch.channel_type ch.extra ≡ channel_opened)))
unfolding handle_channel
handle_channel_lem upstream accept_fails ch =
    let t = ch.channel_type in
    let a = upstream t ch.extra in
    elim (Bool-cases (is_forwarded_type t)) [
      | inr other ↦ rw other (refl, (tt, tt), inl refl)
      | inl forwarded ↦
          let (once, handed, forms) = answered-counts accept_fails a t ch.extra in
          rw forwarded
            (once, ((refl, refl, forwarded_type t forwarded), forms), handed_cases a handed)
    ]

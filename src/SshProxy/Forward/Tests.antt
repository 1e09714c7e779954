-- ===== src/SshProxy/Forward/Tests.antt =====
-- internal/sshproxy/forward.go on one connection.
use forge_proxy.Base.{
  ℕ, zero, suc, ◌*◌, ◌≤◌, Bytes, codes, true, false, List, [], ◌∷◌, map, length, take, ◌≡◌, ◌≢◌,
  ◌⊎◌, refl, Option, none, some, All, ◌↔◌, arith,
}
use forge_proxy.Clock.{second}
use forge_proxy.User.{User}
use forge_proxy.SshCa.{mint}
use forge_proxy.SshProxy.Forward.{
  AuthenticatedConn, accepted, host_key_mismatch, refused, opened, Outside, upstream_failed, handle,
  handle_channel, OpenAnswer, channel_opened, rejects, unknown_channel_type, Request, Reply,
  forward_global_requests, forward_client_request, is_ok,
}
use forge_proxy.SshProxy.Forward.Upstream.{MaySignIn, Ended, handle_lem}
use forge_proxy.SshProxy.Forward.Channels.{answers, handed_over, IsAsked, handle_channel_lem}
use forge_proxy.SshProxy.Forward.Requests.{
  wanted, reply_count, all_sent, without_reverse, CanFail, forward_global_requests_lem,
  forward_client_request_lem,
}
use forge_proxy.SshProxy.Forward.Channel.{
  returned, State, start, Move, client_sends, up_writes, up_sends, up_closes, loop_takes,
  loop_sends, up_answers, loop_replies, up_loop_sends, client_answers, client_reads, up_loop_ends,
  out_copies, out_ends, err_ends, main_sees_close, main_drained, main_locks, main_closes_client,
  main_closes_up, main_unlocks, holds, closing_client, can, next, Reach, begins, moves,
}
use forge_proxy.SshProxy.Forward.Invariant.{AllCopied, closed_in_order}
use forge_proxy.SshProxy.Forward.Measure.{measure}
use forge_proxy.SshProxy.Forward.Progress.{IsSure}
use forge_proxy.SshProxy.Forward.Ends.{AreOwn, after, teardown_ends, Reach-Finishes}

forwarding : Unit {0}
unfolding handle mint handle_channel forward_global_requests forward_client_request without_reverse
    can next after measure
forwarding = tt

abbrev ann : User
ann = record {
  id = 7;
  slack_user_id = codes "U7";
  slack_team_id = codes "T1";
  email = codes "ann@x.io";
  name = codes "Ann";
  avatar_url = [];
  roles = [];
  created_at = 0;
  last_login_at = 0;
}

abbrev outside : Outside
outside = record {
  signer = true;
  is_cancelled = false;
  crypto_fails = false;
  dial_fails = false;
  handshake = λ host cfg. accepted;
  now = 600 * second;
}

abbrev conn : AuthenticatedConn
conn = record { server_conn = true; target = some (codes "box:22"); user = some ann }

handle_lem_example :
    All (MaySignIn (600 * second) (some ann)) (handle outside (some conn)).1
    × Ended (some (codes "box:22")) (handle outside (some conn))
handle_lem_example = handle_lem outside conn (omega arith)

handle_tests :
    ((handle outside (some conn)).0 ≡ opened (codes "box:22"))
    × ((handle (record outside { handshake = λ host cfg. host_key_mismatch }) (some conn)).0
        ≡ refused upstream_failed)
    × ((handle outside (some (record conn { user = some (record ann { email = [] }) }))).1 ≡ [])
unfolding forwarding
handle_tests = (refl, refl, refl)

abbrev upstream : Bytes → Bytes → OpenAnswer
upstream t extra = channel_opened

handle_channel_lem_concrete :
    let acts =
      handle_channel upstream true (record { channel_type = codes "session"; extra = [] }) in
    (answers acts ≡ 1)
    × All (IsAsked (codes "session") []) acts
    × ((handed_over acts ≡ 0)
        ⊎ ((handed_over acts ≡ 1) × (upstream (codes "session") [] ≡ channel_opened)))
handle_channel_lem_concrete =
    handle_channel_lem upstream true (record { channel_type = codes "session"; extra = [] })

handle_channel_tests :
    handle_channel upstream false (record { channel_type = codes "x11"; extra = [] })
    ≡ rejects unknown_channel_type (codes "channel type not supported") ∷ []
unfolding forwarding
handle_channel_tests = refl

abbrev keepalive : Request
keepalive = record { request_type = codes "keepalive"; want_reply = true; payload = [] }

abbrev reverse : Request
reverse = record { request_type = codes "tcpip-forward"; want_reply = true; payload = [] }

-- The other end answers the first two requests.
abbrev far_end : Request → ℕ → Option Reply × ℕ
far_end r zero = (none, 0)
far_end r (suc n) = (some (record { ok = true; payload = [] }), n)

abbrev global : List Request
global = keepalive ∷ reverse ∷ keepalive ∷ keepalive ∷ reverse ∷ []

forward_global_requests_lem_example :
    let es = (forward_global_requests far_end global 2).0 in
    (all_sent es ≡ without_reverse (take (length es) global))
    × (map reply_count es ≡ map wanted (take (length es) global))
    × ((length es ≡ length global) ⊎ CanFail far_end)
forward_global_requests_lem_example = forward_global_requests_lem far_end global 2

request_tests :
    (length (forward_global_requests far_end global 2).0 ≡ 4)
    × (all_sent (forward_global_requests far_end global 2).0
        ≡ keepalive ∷ keepalive ∷ keepalive ∷ [])
unfolding forwarding
request_tests = (refl, refl)

forward_client_request_lem_concrete :
    let (e, n) = forward_client_request far_end keepalive 1 in
    (length e.replies ≡ 1)
    × (((codes "keepalive" ≡ codes "auth-agent-req@openssh.com")
          × (e.sent ≡ [])
          × ◌≡◌ {A = ℕ} n 1
          × All (λ (q : Reply). q.ok ≡ false) e.replies)
        ⊎ ((codes "keepalive" ≢ codes "auth-agent-req@openssh.com")
            × (e.sent ≡ keepalive ∷ [])
            × (n ≡ (far_end keepalive 1).1)
            × All
                (λ (q : Reply). (q.ok ≡ true) ↔ (is_ok (far_end keepalive 1).0 ≡ true))
                e.replies))
forward_client_request_lem_concrete = forward_client_request_lem far_end keepalive 1

-- Moves that can be made one after the other.
abbrev AreEnabled : List Move → State → Type 0
AreEnabled [] s = Unit
AreEnabled (mv ∷ mvs) s = (can mv s ≡ true) × AreEnabled mvs (next mv s)

reached : (mvs : List Move) {s : State} → Reach s → AreEnabled mvs s → Reach (after mvs s)
unfolding after
reached [] r h = r
reached (mv ∷ mvs) r (enabled, rest) = reached mvs (moves r mv enabled refl) rest

-- The upstream writes, sends its exit status and closes, while a request of the client waits.
abbrev ending : List Move
ending = client_sends ∷ up_writes ∷ loop_takes ∷ loop_sends ∷ up_sends ∷ up_closes ∷ []

abbrev teardown : List Move
teardown =
    up_loop_sends ∷ client_answers ∷ up_loop_ends ∷ main_sees_close ∷ client_reads ∷ out_copies
    ∷ out_ends ∷ err_ends ∷ main_drained ∷ up_answers ∷ loop_replies ∷ main_locks
    ∷ main_closes_client ∷ main_closes_up ∷ main_unlocks ∷ []

ending-AreEnabled : AreEnabled ending start
unfolding forwarding
ending-AreEnabled = (refl, (refl, (refl, (refl, (refl, (refl, tt))))))

teardown-AreOwn : AreOwn teardown (after ending start)
unfolding forwarding
teardown-AreOwn = (
  tt,
  refl,
  (
    tt,
    refl,
    (
      tt,
      refl,
      (
        tt,
        refl,
        (
          (refl, omega arith),
          refl,
          (
            tt,
            refl,
            (
              tt,
              refl,
              (
                tt,
                refl,
                (
                  tt,
                  refl,
                  (tt, refl, (tt, refl, (tt, refl, (tt, refl, (tt, refl, (tt, refl, tt)))))),
                ),
              ),
            ),
          ),
        ),
      ),
    ),
  ),
)

teardown_ends_example :
    (length teardown ≤ measure (after ending start))
    × (((after teardown (after ending start)).main ≡ returned)
        ⊎ ((mv : Move) × IsSure mv (after teardown (after ending start))
            × (can mv (after teardown (after ending start)) ≡ true)))
unfolding forwarding
teardown_ends_example =
    teardown_ends (reached ending begins ending-AreEnabled) refl teardown teardown-AreOwn

Reach-Finishes_concrete :
    (mvs : List Move) × AreOwn mvs (after ending start)
    × ((after mvs (after ending start)).main ≡ returned)
unfolding forwarding
Reach-Finishes_concrete = Reach-Finishes (reached ending begins ending-AreEnabled) refl

abbrev torn : State
torn = after teardown (after ending start)

closed_in_order_example :
    (torn.client_closed ≡ true
      → (torn.up_closed ≡ true)
        × (torn.up_requests ≡ 0)
        × (torn.up_asking ≡ false)
        × ((torn.client_left ≡ true) ⊎ (torn.up_lost ≡ false))
        × AllCopied torn torn.out_left
        × AllCopied torn torn.err_left)
    × (torn.main ≡ closing_client → holds torn.loop ≡ false)
unfolding forwarding
closed_in_order_example = closed_in_order (
    reached teardown (reached ending begins ending-AreEnabled) (
      refl,
      (
        refl,
        (
          refl,
          (
            refl,
            (
              refl,
              (refl, (refl, (refl, (refl, (refl, (refl, (refl, (refl, (refl, (refl, tt)))))))))),
            ),
          ),
        ),
      ),
    ))

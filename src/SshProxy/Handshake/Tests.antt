-- ===== src/SshProxy/Handshake/Tests.antt =====
-- One enrollment on concrete stores.
use forge_proxy.Base.{codes, false, List, [], ◌∷◌}
use forge_proxy.Net.Header.{Header}
use forge_proxy.Session
use forge_proxy.Session.{Session}
use forge_proxy.User.{User}
use forge_proxy.SshKey.Owned.{Op, adds, touches, removes}
use forge_proxy.SshKey.Bound.{no_faults}
use forge_proxy.SshProxy.Handshake.{Offered}

abbrev browser : Header
browser = (codes "Cookie", codes "forge_session=s1" ∷ []) ∷ []

abbrev session : Session
session = record {
  id = codes "s1";
  user_id = 7;
  created_at = 0;
  last_seen_at = 0;
  expires_at = 1000;
  user_agent = [];
  ip = [];
}

abbrev ann : User
ann = record {
  id = 7;
  slack_user_id = codes "U7";
  slack_team_id = codes "T1";
  email = codes "ann@x.io";
  name = codes "Ann";
  avatar_url = [];
  roles = [];
  created_at = 0;
  last_login_at = 0;
}

abbrev laptop : Offered
laptop = record { fingerprint = codes "f1"; key_type = codes "ssh-rsa"; blob = 1 ∷ [] }

-- The key is used, somebody else offers it too, and another key goes.
abbrev later_calls : List Op
later_calls =
    touches no_faults false 400 (codes "f1")
    ∷ adds no_faults false 2 410 9 (codes "f1") [] [] []
    ∷ removes no_faults false (codes "f2")
    ∷ []

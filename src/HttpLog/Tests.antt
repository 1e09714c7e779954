-- ===== src/HttpLog/Tests.antt =====
-- Tests of internal/httplog.
use forge_proxy.Base.{codes, true, false, List, [], ◌∷◌, ◌++◌, ◌≡◌, refl, none, arith}
use forge_proxy.HttpLog.Address.{client_ip, client_ip_lem}
use forge_proxy.HttpLog.Recorder.{
  Writer, Call, header, body, hijacks, recorder, run, run_below, IsTrue, recorder_lem,
}

client_ip-whole : client_ip (codes "pipe") ≡ codes "pipe"
unfolding client_ip
client_ip-whole = refl

client_ip_lem_concrete :
    (client_ip (codes "10.0.0.7" ++ b':' ∷ codes "443") ≡ codes "10.0.0.7")
    × (client_ip (b'[' ∷ (codes "fe80::1" ++ b']' ∷ b':' ∷ codes "443")) ≡ codes "fe80::1")
client_ip_lem_concrete =
    client_ip_lem (codes "10.0.0.7") (codes "fe80::1") (codes "443") (omega arith) (omega arith)
      (omega arith) (omega arith) (omega arith)

abbrev writer : Writer
writer = record {
  sent = none;
  taken = 0;
  is_hijacked = false;
  can_hijack = true;
  can_flush = false;
  flushes = 0;
}

abbrev calls : List Call
calls = header 404 ∷ body 10 ∷ body 5 ∷ hijacks ∷ []

recorder_lem_concrete :
    ((run calls (recorder writer)).below ≡ run_below calls writer)
    × IsTrue (run calls (recorder writer))
recorder_lem_concrete = recorder_lem calls writer refl refl refl (omega arith, refl)

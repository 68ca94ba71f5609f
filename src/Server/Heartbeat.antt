-- ===== src/Server/Heartbeat.antt =====
-- service/serveridentity.go: registration and heartbeats.
use opampcommander.Base.{
  ℕ, ◌+◌, ◌<◌, String, ◌≡◌, refl, inl, inr, Option, none, some, arith, nat_eq, string_eq,
  str_eq_refl, Bool-cases, Option-cases, Error, resource_not_exist, server_id_already_exists,
  Result, ok, err,
}
use opampcommander.Agent.Health.{Time, sub_lt}
use opampcommander.Store.Ops.{find_item, add_item, put, get, visible}
use opampcommander.Store.Lookup.{find_item-set_value}
use opampcommander.Server.{
  Server, Servers, clone_server, is_alive, get_server, put_server, registered, marked_alive,
  register_found, register_server, beat, send_heartbeat, set_condition, mark_registered,
}

-- A server that was put is read back.
get_server-put_server :
    (s : Server) (servers : Servers) → get_server s.id (put_server s servers) ≡ ok (clone_server s)
unfolding get_server put_server get put visible add_item find_item clone_server
get_server-put_server s servers = elim (Option-cases (find_item s.id servers.items)) [
  | inl n ↦ rw (n, str_eq_refl s.id) refl
  | inr (x, q) ↦
      rw (q, find_item-set_value s.id s.id (clone_server s) servers.items, str_eq_refl s.id, q) refl
]

-- Put servers are alive from their heartbeat until the timeout.
refuses :
    (s : Server) (servers : Servers) (now marked_at alive_at : Time) (timeout : ℕ)
    → now < s.last_heartbeat_at + timeout
    → register_server s.id now marked_at alive_at timeout (put_server s servers)
      ≡ (put_server s servers, some server_id_already_exists)
unfolding register_server register_found is_alive sub_lt clone_server
refuses s servers now marked_at alive_at timeout h =
    rw (get_server-put_server s servers) (ground (arith, h))

-- A server under the ID, with a heartbeat at the time, was put.
Put : String → Time → Servers → Type 0
Put id now after =
    (s : Server) × ((before : Servers) × ((after ≡ put_server s before)
        × ((s.id ≡ id) × (s.last_heartbeat_at ≡ now))))

register_found-Put :
    (id : String) (now marked_at alive_at : Time) (timeout : ℕ) (servers : Servers)
    (r : Result Server)
    → (register_found id now marked_at alive_at timeout servers r).1 ≡ none
    → Put id now (register_found id now marked_at alive_at timeout servers r).0
unfolding register_found Put registered marked_alive mark_registered set_condition
register_found-Put id now marked_at alive_at timeout servers (ok existing) h =
    elim (Bool-cases (is_alive now timeout existing)) [
      | inl q ↦
          absurd (
            let f : ◌≡◌ {A = Option Error} (some server_id_already_exists) none = rw q at h in cc f)
      | inr q ↦ rw q (_, (servers, (refl, (refl, refl))))
    ]
register_found-Put id now marked_at alive_at timeout servers (err resource_not_exist) h =
    (_, (servers, (refl, (refl, refl))))
register_found-Put id now marked_at alive_at timeout servers (err e) h = absurd (cc h)

beat-Put :
    (id : String) (now : Time) (servers : Servers) (r : Result Server)
    → ((s : Server) → r ≡ ok s → s.id ≡ id)
    → (beat now servers r).1 ≡ none
    → Put id now (beat now servers r).0
unfolding beat Put
beat-Put id now servers (err e) k h = absurd (cc h)
beat-Put id now servers (ok s) k h = (_, (servers, (refl, (k s refl, refl))))

refused-Put :
    (id : String) (now later marked_at alive_at : Time) (timeout : ℕ) (after : Servers)
    → Put id now after
    → later < now + timeout
    → register_server id later marked_at alive_at timeout after
      ≡ (after, some server_id_already_exists)
unfolding Put
refused-Put id now later marked_at alive_at timeout after (s, (old, (e, (i, t)))) before =
    rw (e, ← i) (refuses s old later marked_at alive_at timeout (rw t before))

-- The sign of life of a server: its registration or a heartbeat.
pub data Sign : Type 0 where
  registration : Time → Time → ℕ → Sign
  heartbeat : Sign

abbrev pub sign_at : Sign → String → Time → Servers → Servers × Option Error
sign_at (Sign.registration marked_at alive_at timeout) id now servers =
    register_server id now marked_at alive_at timeout servers
sign_at Sign.heartbeat id now servers = send_heartbeat id now servers

-- Once a server has registered or sent a heartbeat, another that registers under its ID less than the
-- timeout later is refused, and the stored servers stay as they are. The servers are stored under their
-- own IDs.
pub register_server-refused :
    (sign : Sign) (id : String) (now later marked_at alive_at : Time) (timeout : ℕ)
    (servers : Servers)
    → ((s : Server) → get_server id servers ≡ ok s → s.id ≡ id)
    → (sign_at sign id now servers).1 ≡ none
    → later < now + timeout
    → register_server id later marked_at alive_at timeout (sign_at sign id now servers).0
      ≡ ((sign_at sign id now servers).0, some server_id_already_exists)
unfolding register_server send_heartbeat
register_server-refused (Sign.registration m a t) id now later marked_at alive_at timeout servers
      keyed h before =
    refused-Put id now later marked_at alive_at timeout (register_server id now m a t servers).0
      (register_found-Put id now m a t servers (get_server id servers) h) before
register_server-refused Sign.heartbeat id now later marked_at alive_at timeout servers keyed h
      before =
    refused-Put id now later marked_at alive_at timeout (send_heartbeat id now servers).0
      (beat-Put id now servers (get_server id servers) keyed h) before

-- ===== src/Flows/Published/Tests.antt =====
-- Runs of UDPServices in internal/proxy/udp.go, and its theorem at a concrete input.
use quantumcat.Base.{ascii, true, false, some, List, [], ◌∷◌, ◌≡◌, refl}
use quantumcat.Base.Assoc.{lookup, insert, erase, member, number_key}
use quantumcat.Socks.{Net, validate_target}
use quantumcat.Services.{Targets}
use quantumcat.Flows.Published.{
  configure_targets, Publication, publish, take_slot, accept_port, finish_relay, dial_relay, Turn,
  arrives, dials, returns, cancels, turn, turns,
}
use quantumcat.Flows.Published.Limits.{IsPublished, publish-IsPublished}

-- Hosts without ports, all at port 80.
abbrev toy_net : Net
toy_net = record {
  ip_string = λ b. b;
  join_host_port = λ h p. h;
  split_host_port = λ t. some (t, ascii "80");
  parse_port = λ p. some 80;
}

abbrev toy_targets : Targets
toy_targets = (53, ascii "dns") ∷ (5000, ascii "game") ∷ []

abbrev toy_configured : Targets
toy_configured = (5000, ascii "game") ∷ (53, ascii "dns") ∷ []

abbrev toy_start : Publication
toy_start = record { configured = toy_configured; cancelled = false; active = []; closed = 0 }

publishes : publish toy_net toy_targets ≡ some toy_start
unfolding publish configure_targets validate_target insert
publishes = refl

-- Of four connections one has no handler, one is closed at once, and one returns.
abbrev toy_turns : List Turn
toy_turns =
    arrives 1 53 true
    ∷ arrives 2 99 true
    ∷ arrives 3 5000 true
    ∷ dials 1 true
    ∷ cancels
    ∷ arrives 4 53 false
    ∷ returns 3
    ∷ []

abbrev toy_end : Publication
toy_end = record {
  configured = toy_configured;
  cancelled = true;
  active = (1, record { port = 53; target = ascii "dns"; dialed = true }) ∷ [];
  closed = 2;
}

relays : turns toy_turns toy_start ≡ toy_end
unfolding turns turn accept_port take_slot dial_relay finish_relay member lookup insert erase
relays = refl

publish-IsPublished_example : IsPublished toy_net toy_targets (turns toy_turns toy_start)
publish-IsPublished_example = publish-IsPublished toy_net toy_targets toy_start toy_turns publishes

-- ===== src/Scenarios/Inboxes.antt =====
-- Inboxes that are over their limit, and nearly full.
use nexus_kvm.Base.{List, ◌≡◌, refl, true, none, some, [], ◌∷◌, arith}
use nexus_kvm.Agent.{png_clip, kind_max}
use nexus_kvm.Agent.Receive.{FilePath, ClipOffer, inbox_full}
use nexus_kvm.Agent.Receive.Clip.{refuse}
use nexus_kvm.Agent.Inbox.{Entry, sized, folder, no_more, next, dir_size, prune_inbox, recv_in}
use nexus_kvm.Agent.Send.{sat_add}
use nexus_kvm.Agent.Inbox.Full.{recv_in-IsStuck}
use nexus_kvm.Scenarios.Shared.{plain, secret}
use nexus_kvm.Scenarios.Clips.{peer_code}

abbrev new_clip : Entry
new_clip = record {
  node = folder (next (sized 160000000) (next (sized 100000000) no_more));
  modified = some 9;
  left = none;
}

abbrev old_clip : Entry
old_clip = record { node = sized 200000000; modified = some 4; left = none }

-- The old clip is removed.
pruned : prune_inbox true (new_clip ∷ old_clip ∷ []) ≡ new_clip ∷ []
unfolding prune_inbox sat_add
pruned = refl

abbrev inbox : FilePath
inbox = (105 ∷ 110 ∷ []) ∷ []

abbrev picture : ClipOffer
picture = record { id = 55 ∷ []; kind = png_clip; byte_len = 16000000; files = [] }

used : dir_size (new_clip ∷ []) ≡ 260000000
unfolding dir_size sat_add
used = refl

recv_in-IsStuck_example :
    let r = recv_in plain peer_code secret 5060 (λ p. true) true (new_clip ∷ []) inbox picture [] in
    (dir_size (r.0) ≡ dir_size (new_clip ∷ [])) × (r.1 ≡ refuse inbox_full)
unfolding kind_max
recv_in-IsStuck_example =
    recv_in-IsStuck plain peer_code secret 5060 (λ p. true) true (new_clip ∷ []) inbox picture []
      (omega arith) (omega arith) (rw used (omega arith)) (rw used (omega arith))

-- ===== src/Router/Keys.antt =====
-- rkvm-master/rkvm-server/src/target.rs: the keys that are held, each with the machine that it was
-- pressed on.
use nexus_kvm.Base.{
  String, Bool, true, false, not, ◌&&◌, Option, none, some, List, [], if◌then◌else◌, holds, Result,
  ok, err, keep_if, str_dec,
}
use nexus_kvm.Base.Dict.{lookup, insert, remove}
use nexus_kvm.Router.{
  Router, Key, key_dec, TargetError, peer_unavailable, local_target, event_target,
}

-- A press is noted with its destination; a release gives that destination back.
unfoldable pub note_key : Router → Key → Bool → Router × Option String
unfolding event_target
note_key r k true = (record r { held_keys = insert key_dec k (event_target r) r.held_keys }, none)
note_key r k false =
    (record r { held_keys = remove key_dec k r.held_keys }, lookup key_dec k r.held_keys)

unfoldable pub restore_held : Router → Key → String → Router
restore_held r k dest = record r { held_keys = insert key_dec k dest r.held_keys }

abbrev pub goes_to : String → Key × String → Bool
goes_to id e = holds (str_dec e.1 id)

abbrev known : Router → String → Bool
known r id = elim (lookup str_dec id r.peers) [ none ↦ false | some p ↦ true ]

unfoldable pub release_all :
    Router → Option String → Router × Result (List (Key × String)) TargetError
release_all r none = (record r { held_keys = [] }, ok r.held_keys)
release_all r (some id) =
    if not (holds (str_dec id local_target)) && not (known r id)
    then (r, err (peer_unavailable id))
    else (
      record r { held_keys = keep_if (λ e. not (goes_to id e)) r.held_keys },
      ok (keep_if (goes_to id) r.held_keys),
    )

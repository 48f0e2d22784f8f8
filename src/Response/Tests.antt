-- ===== src/Response/Tests.antt =====
-- An error response with an encoder that fails.
use helix_fnd.Prelude.{ℕ, ◌≡◌, refl, String, [], Option, none}
use helix_fnd.Http.{Served, blank}
use helix_fnd.Response.{Envelope, nil, empty_object, write, map_status, err_forbidden}
use helix_fnd.Response.Statuses.{HasSent, status_after, write-status}

abbrev nothing_sent : Served ℕ
nothing_sent = record { world = 0; writer = blank; logs = [] }

abbrev no_content : Envelope String
no_content = record { payload = empty_object; meta = nil; error = none }

abbrev failing : Envelope String → Option String
failing env = none

write-status_example :
    HasSent (write failing 403 no_content nothing_sent).writer (status_after none 403)
write-status_example = write-status failing 403 no_content nothing_sent

forbidden : map_status err_forbidden ≡ 403
unfolding map_status
forbidden = refl

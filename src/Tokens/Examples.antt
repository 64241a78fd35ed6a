-- ===== src/Tokens/Examples.antt =====
-- Two servers with an installation of the same id.
use cxone_flow_buildwork.Prelude.{◌≡◌, refl, false, none, some, []}
use cxone_flow_buildwork.Prelude.Run.{ok}
use cxone_flow_buildwork.Tokens.{
  Token, Cache, Context, find_install_id, find_app_id, get_token_tuple,
}

abbrev context : Context
context = record {
  event_installation = some "12";
  kickoff_installation = none;
  app_id_header = some "3";
  kickoff_app = none;
}

abbrev given : Token
given = record { token = "t"; expires_at = 3600 }

abbrev no_tokens : Cache
no_tokens = record { tokens = []; requests = [] }

ids_read : (find_install_id context ≡ ok "12") × (find_app_id context ≡ ok "3")
unfolding find_install_id find_app_id
ids_read = (refl, refl)

first_given : (get_token_tuple "https://gh" false 10 (ok given) context no_tokens).0 ≡ ok given
unfolding get_token_tuple
first_given = refl

-- ===== src/Cloner/Protocols.antt =====
-- The choice of a clone url for a cloner.
use cxone_flow_buildwork.Prelude.{String, ◌≢◌, none, arith}
use cxone_flow_buildwork.Prelude.Dict.{Dict}
use cxone_flow_buildwork.Prelude.Run.{ok}
use cxone_flow_buildwork.Kickoff.{repo_clone_url}
use cxone_flow_buildwork.Cloner.{Auth, protocol_matcher}

-- The url that an orchestrator gives the base class is never None: where no url has a protocol of the
-- cloner, the subscript raises a KeyError, so that the class's own test for None has no effect.
pub url_is_never_none :
    (auth : Auth) (urls : Dict String) → repo_clone_url (protocol_matcher auth) urls ≢ ok none
unfolding repo_clone_url
url_is_never_none auth urls = ground arith

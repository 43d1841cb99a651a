-- ===== src/RefreshTokens/Issue/Tests.antt =====
-- One issuance into an empty table.
-- About src/tokens/refresh-token.ts.
use keyforge.Prelude.{◌≡◌, refl, false, none}
use keyforge.Security.Crypto.Sample.{sample}
use keyforge.Oauth.Errors.{returned}
use keyforge.RefreshTokens.Sample.{sample_draw, sample_store}
use keyforge.RefreshTokens.Issue.{IssueInput, Issued, token_of, commit, issue_refresh_token}
use keyforge.RefreshTokens.Issue.Cap.{Holds, issue_refresh_token-Holds}

abbrev input : IssueInput
input = record {
  user_id = "usr_1";
  client_id = "app";
  session_id = none;
  resource = "https://api.example";
  scope = "read offline_access";
  auth_time = 100;
  remember_me = false;
}

abbrev handed : Issued
handed = record { token = "rtf_1.r"; family_id = "rtf_1"; expires_at = 2592110 }

handed_out : (issue_refresh_token sample sample_draw input sample_store).0 ≡ returned handed
unfolding issue_refresh_token commit
handed_out = refl

issue_refresh_token-Holds_example :
    handed.token ≡ token_of sample_draw
    × Holds sample sample_draw input
        (issue_refresh_token sample sample_draw input sample_store).1.rows
issue_refresh_token-Holds_example =
    issue_refresh_token-Holds sample sample_draw input sample_store handed handed_out

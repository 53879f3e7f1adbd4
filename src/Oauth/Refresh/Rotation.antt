-- ===== src/Oauth/Refresh/Rotation.antt =====
-- What a rotation leaves of the tokens.
use skillplane.Common.{
  String, ◌≡◌, refl, none, List, [], ◌∷◌, ◌++◌, map, ◌⊎◌, inl, inr, Bool-cases, Option-cases,
  Result-cases, Date, ok, err, ◌||◌,
}
use skillplane.Oauth.{Fresh, internal, grant_error, Database, RefreshRow, Runtime, Failure}
use skillplane.Oauth.Tokens.{
  TokenResponse, TokenSubject, issue_token_pair, access_taken, refresh_taken, response_of,
  access_row, refresh_row,
}
use skillplane.Oauth.Refresh.{
  Exchange, rejection, consume_token, consume_row, audited, subject_of, rotate, reduced_scopes,
}

-- What a rotation has established about the token, and what it writes.
pub record Rotated (runtime : Runtime) (x : Exchange) (token : RefreshRow) (db db' : Database)
    : Type 0 where
  pub scopes : List String
  pub accepted : rejection runtime x token ≡ none
  pub reduced : reduced_scopes x.scope token.scopes ≡ ok scopes
  pub refresh :
      db'.refresh
      ≡ map (consume_row token.id x.written_at) db.refresh
        ++ refresh_row runtime x.fresh x.issued_at (subject_of token scopes) ∷ []
  pub access :
      db'.access
      ≡ db.access ++ access_row runtime x.fresh x.issued_at (subject_of token scopes) ∷ []

pub issue_token_pair-cases :
    (runtime : Runtime) (fresh : Fresh) (now : Date) (subject : TokenSubject) (db : Database)
    → ((e : Failure) × (issue_token_pair runtime fresh now subject db ≡ err e))
      ⊎ (issue_token_pair runtime fresh now subject db
          ≡ ok (
            response_of runtime fresh subject,
            record db {
              access = db.access ++ access_row runtime fresh now subject ∷ [];
              refresh = db.refresh ++ refresh_row runtime fresh now subject ∷ [];
            },
          ))
unfolding issue_token_pair
issue_token_pair-cases runtime fresh now subject db =
    elim (Bool-cases (
      access_taken (access_row runtime fresh now subject) db.access
      || refresh_taken (refresh_row runtime fresh now subject) db.refresh)) [
        | inl e ↦ inl (internal, rw e)
        | inr e ↦ inr (rw e)
      ]

-- A rotation either answers with an error and leaves the database, or has rotated the token.
pub rotate-cases :
    (runtime : Runtime) (x : Exchange) (token : RefreshRow) (db : Database)
    → ((e : Failure) × ((rotate runtime x token db).reply ≡ err e)
        × ((rotate runtime x token db).database ≡ db))
      ⊎ ((response : TokenResponse) × ((rotate runtime x token db).reply ≡ ok response)
          × Rotated runtime x token db (rotate runtime x token db).database)
unfolding rotate
rotate-cases runtime x token db = elim (Option-cases (rejection runtime x token)) [
  | inr (reason, e) ↦ rw (e, rotate) (inl (grant_error, refl, refl))
  | inl e ↦ elim (Result-cases (reduced_scopes x.scope token.scopes)) [
    | inr (f, e2) ↦ rw (e, rotate, e2) (inl (f, refl, refl))
    | inl (scopes, e2) ↦
        elim (issue_token_pair-cases runtime x.fresh x.issued_at (subject_of token scopes)
          (consume_token token.id x.written_at db)) [
            | inl (f, e3) ↦ rw (e, rotate, e2, e3) (inl (f, refl, refl))
            | inr e3 ↦
                rw (e, rotate, e2, e3)
                  (inr (
                    response_of runtime x.fresh (subject_of token scopes),
                    refl,
                    unfold audited consume_token in
                        record {
                          scopes = scopes;
                          accepted = e;
                          reduced = e2;
                          refresh = refl;
                          access = refl;
                        },
                  ))
          ]
  ]
]

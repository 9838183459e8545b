-- ===== src/Lib.antt =====
-- The services of the Gechu backend, a Django application that recommends games: what its
-- background tasks and service functions do to the tables, as functions on lists of rows, with the
-- theorems that make them correct.
--
-- The parts and how they interact. Accounts are made and given new passwords by emailed codes, and
-- can be deleted and restored (apps/users). Users view, search, save and rate games. Each action is
-- a row of an append-only log (apps/interactions), with a weight by administrators' rules; saving
-- and rating also change the user's affinity to the game, and a user can name preferred genres,
-- platforms and tags (apps/preferences). From the log a periodic job rebuilds a table of similar
-- games, and a job per user turns the log, the similarities and the preferences into ranked
-- recommendations (apps/recommendations/tasks.py); jobs are enqueued, handed to workers and claimed
-- through rows of a job table (the same file, and apps/recommendations/services.py). The games
-- themselves stand at IGDB: a client asks for them by query, a cache keeps the answers, and the
-- lists of games are built from these (apps/games/igdb, apps/games/services). Their Korean names
-- come from Wikidata by tasks of their own (apps/games/wikidata, apps/games/tasks.py). A user can
-- also log in by Kakao or Discord, and is shown games for adults after a verification by BBaton.
--
-- Which file models which part:
--   Core/Errors: ErrorMessages of apps/core/exceptions/exception_message.py and the other exceptions.
--   Core/Exec: a service as a function from the state to a result and a state; what was written
--     before a raise stays written, and `atomic` is transaction.atomic().
--   Models: the tables as lists of rows in the order of insertion, one record for all of them.
--   Recommendations/Pairs: _build_similarity_pairs_from_interactions, with its specification in
--     Pairs/Spec. Recommendations/Similar: _replace_game_similarities. Recommendations/Candidates:
--     _collect_seed_game_ids, _build_similarity_candidates, _collect_preference_candidates.
--     Recommendations/Upsert: _upsert_recommendations. Recommendations/Job: run_user_refresh_job
--     and run_similarity_rebuild_job. Recommendations/Schedule: process_pending_recommendation_jobs.
--     Recommendations/Status: apps/recommendations/services.py and
--     enqueue_similarity_rebuild_job_if_needed.
--   Interactions/Record: record_view_interaction, record_search_interaction and
--     record_store_click_interaction of apps/interactions/services/view_log_service.py, which share
--     their text from the rules on; Interactions/Decimal is the arithmetic of the weights.
--   Interactions/Rules: the rules' services in apps/interactions/services/admin_weight_rule_service.py
--     and admin_context_rule_service.py, and the update checks of apps/interactions/serializers.py.
--   Preferences: apps/preferences/services.py.
--   Accounts: apps/users/services/auth_service.py, its refresh tokens in Accounts/Tokens;
--     Accounts/Cache is the cache, a value for each key until a time.
--     Accounts/Profile: apps/users/services/user_me_service.py without the profile image, and
--     apps/users/tasks.py. The accounts have a state of their own, apart from the tables in Models.
--     Accounts/Searches: apps/users/services/search_recent_service.py.
--   Accounts/Adult: apps/users/services/adult_verification_service.py. Accounts/Social:
--     social_auth_service.py beside it, and Accounts/Nicknames: nickname_service.py.
--   Games/Client: apps/games/igdb/client.py and exceptions.py, its queries in Client/Queries, the
--     pages in Client/Pages and the searches in Client/Search. Games/Converters:
--     apps/games/igdb/converters.py. Games/Response: apps/games/igdb/response_builder.py.
--   Games/Cache: apps/games/igdb/cache.py, with get_games_by_ids in Cache/Bulk. Games/Keys: the
--     dict of arguments that a search is kept by.
--   Games/Lists: apps/games/services, with apps/games/serializers/game_list.py in Lists/Request and
--     apps/games/views/game_list.py in Lists/View.
--   Games/Names: the hashes and locks of apps/games/wikidata/client.py, its queries in
--     Names/Wikidata, apps/games/wikidata/resolvers.py in Names/Editions and Names/Resolve, and
--     apps/games/tasks.py in Names/Tasks. Games/Chosung: apps/games/chosung.py.
--     Games/Autocomplete: apps/games/views/autocomplete.py.
--   Games/Raw and Games/Text: JSON values as the code reads them, and the methods of `str`.
--
-- Conventions. Times are microseconds, and seconds in Games. Scores and weights are whole numbers
-- of 0.0001, base weights and multipliers of 0.01, decays of 0.001. The clock, and the key and
-- creation time of a new row, are arguments. Dates of games are days from 1970-01-01. A query with
-- no order for ties takes the rows in the order of insertion. A filter on a unique column takes the
-- first row that fits. A list in Redis that is cut to a size of 0 keeps all, as `ltrim(0, -1)` does. Text that a CharField limits to its choices is a data type where a
-- serializer has checked it, and a text elsewhere.
--
-- Parameters. The recommendation tasks take the search of games with the limit and the distinctness
-- of what it returns (Candidates.GameSearch); Candidates/Catalogue fills it with the search of
-- Games/Cache in one state of the cache, in which what is kept by the keys of such searches fits
-- them, while IGDB keeps to the limits of its queries (Games/Cache/Fit). Parameters are also the
-- float quotient of a pair by the root, rounded to units of 0.0001, with the laws that for a
-- quotient of at most 1 it is within one unit of the quotient and at most 1 (Pairs.FloatScore); what
-- the mail server answers, which may be a failure; the text of an exception; the ids of the tables of games; the rows that other
-- transactions lock while the scheduler looks; Django's hasher, password validators and normal form
-- of an address, with the law that a password fits its own hash (Accounts.Django); reading a
-- refresh token, which is refused once its number is blacklisted (Accounts.Tokens.Jwt); what Redis
-- gives to the scans of the autocompletion (Autocomplete.Redis); what IGDB and Twitch answer to the
-- n-th request (Client.Remote), and what Wikidata, BBaton, Kakao and Discord answer; Celery's
-- retry; `str.lower` and `int`; the first 48 bits of the MD5 of a search's dict of arguments in JSON,
-- which may be the same for two dicts; the random choices of nicknames; the ids of
-- the file of keywords; the search for a parent game that an LRU cache keeps. A text of metadata
-- stands for what json.dumps gives, or its failure.
--
-- Bounds. Loops are structural, but for these. The rounding of a decimal to 28 digits drops at most
-- 28 digits, which is enough for coefficients below 10^56, and those of the weights are below
-- 10^40. The pages of IGDB run on one unit for each of the 500 pages and one more, the chunks of a
-- list on its length, and the digits of a number on the number. The scans of the autocompletion run
-- on the 50 iterations that the code allows them. The search for a nickname has no bound in the
-- code: its fuel is an argument, and a result of `none` says that it did not end. The power of a
-- decay is rounded once, as the decimal specification wants it.
--
-- What is not modelled: the views but the list of games and the autocompletion, their
-- documentation, migrations, settings, the profile image, the text of redirect URLs, the sessions
-- and waits of the client of IGDB, logging, row locks (each service runs alone, in the order of its
-- statements), and the columns `created_at` and `updated_at` that no service reads.
pub mod Base
pub mod Core
pub mod Models
pub mod Recommendations
pub mod Interactions
pub mod Preferences
pub mod Accounts
pub mod Games
pub mod Tests

-- ===== src/Games.antt =====
-- apps/games: what the backend asks of IGDB and Wikidata, how it reads and keeps the answers, and
-- the lists of games that it shows.
pub mod Text
pub mod Raw
pub mod Converters
pub mod Chosung
pub mod Names
pub mod Client
pub mod Response
pub mod Keys
pub mod Cache
pub mod Lists
pub mod Autocomplete

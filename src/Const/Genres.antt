-- ===== src/Const/Genres.antt =====
-- mp4tagoldgenrelist: the ID3 genre list, by which a gnre box is converted to a genre name.
use libmp4tag.CString.{Bytes, codes}
use libmp4tag.Prelude.{◌∷◌, List, []}

unfoldable pub mp4tagoldgenrelist : List Bytes
mp4tagoldgenrelist =
    codes "Blues"
    ∷ codes "Classic Rock"
    ∷ codes "Country"
    ∷ codes "Dance"
    ∷ codes "Disco"
    ∷ codes "Funk"
    ∷ codes "Grunge"
    ∷ codes "Hip-Hop"
    ∷ codes "Jazz"
    ∷ codes "Metal"
    ∷ codes "New Age"
    ∷ codes "Oldies"
    ∷ codes "Other"
    ∷ codes "Pop"
    ∷ codes "R&B"
    ∷ codes "Rap"
    ∷ codes "Reggae"
    ∷ codes "Rock"
    ∷ codes "Techno"
    ∷ codes "Industrial"
    ∷ codes "Alternative"
    ∷ codes "Ska"
    ∷ codes "Death Metal"
    ∷ codes "Pranks"
    ∷ codes "Soundtrack"
    ∷ codes "Euro-Techno"
    ∷ codes "Ambient"
    ∷ codes "Trip-Hop"
    ∷ codes "Vocal"
    ∷ codes "Jazz+Funk"
    ∷ codes "Fusion"
    ∷ codes "Trance"
    ∷ codes "Classical"
    ∷ codes "Instrumental"
    ∷ codes "Acid"
    ∷ codes "House"
    ∷ codes "Game"
    ∷ codes "Sound Clip"
    ∷ codes "Gospel"
    ∷ codes "Noise"
    ∷ codes "Alt. Rock"
    ∷ codes "Bass"
    ∷ codes "Soul"
    ∷ codes "Punk"
    ∷ codes "Space"
    ∷ codes "Meditative"
    ∷ codes "Instrumental Pop"
    ∷ codes "Instrumental Rock"
    ∷ codes "Ethnic"
    ∷ codes "Gothic"
    ∷ codes "Darkwave"
    ∷ codes "Techno-Industrial"
    ∷ codes "Electronic"
    ∷ codes "Pop-Folk"
    ∷ codes "Eurodance"
    ∷ codes "Dream"
    ∷ codes "Southern Rock"
    ∷ codes "Comedy"
    ∷ codes "Cult"
    ∷ codes "Gangsta Rap"
    ∷ codes "Top 40"
    ∷ codes "Christian Rap"
    ∷ codes "Pop/Funk"
    ∷ codes "Jungle"
    ∷ codes "Native American"
    ∷ codes "Cabaret"
    ∷ codes "New Wave"
    ∷ codes "Psychedelic"
    ∷ codes "Rave"
    ∷ codes "Showtunes"
    ∷ codes "Trailer"
    ∷ codes "Lo-Fi"
    ∷ codes "Tribal"
    ∷ codes "Acid Punk"
    ∷ codes "Acid Jazz"
    ∷ codes "Polka"
    ∷ codes "Retro"
    ∷ codes "Musical"
    ∷ codes "Rock & Roll"
    ∷ codes "Hard Rock"
    ∷ codes "Folk"
    ∷ codes "Folk-Rock"
    ∷ codes "National Folk"
    ∷ codes "Swing"
    ∷ codes "Fast-Fusion"
    ∷ codes "Bebop"
    ∷ codes "Latin"
    ∷ codes "Revival"
    ∷ codes "Celtic"
    ∷ codes "Bluegrass"
    ∷ codes "Avantgarde"
    ∷ codes "Gothic Rock"
    ∷ codes "Progressive Rock"
    ∷ codes "Psychedelic Rock"
    ∷ codes "Symphonic Rock"
    ∷ codes "Slow Rock"
    ∷ codes "Big Band"
    ∷ codes "Chorus"
    ∷ codes "Easy Listening"
    ∷ codes "Acoustic"
    ∷ codes "Humour"
    ∷ codes "Speech"
    ∷ codes "Chanson"
    ∷ codes "Opera"
    ∷ codes "Chamber Music"
    ∷ codes "Sonata"
    ∷ codes "Symphony"
    ∷ codes "Booty Bass"
    ∷ codes "Primus"
    ∷ codes "Porn Groove"
    ∷ codes "Satire"
    ∷ codes "Slow Jam"
    ∷ codes "Club"
    ∷ codes "Tango"
    ∷ codes "Samba"
    ∷ codes "Folklore"
    ∷ codes "Ballad"
    ∷ codes "Power Ballad"
    ∷ codes "Rhythmic Soul"
    ∷ codes "Freestyle"
    ∷ codes "Duet"
    ∷ codes "Punk Rock"
    ∷ codes "Drum Solo"
    ∷ codes "A Cappella"
    ∷ codes "Euro-House"
    ∷ codes "Dance Hall"
    ∷ codes "Goa"
    ∷ codes "Drum & Bass"
    ∷ codes "Club-House"
    ∷ codes "Hardcore"
    ∷ codes "Terror"
    ∷ codes "Indie"
    ∷ codes "BritPop"
    ∷ codes "Afro-Punk"
    ∷ codes "Polsk Punk"
    ∷ codes "Beat"
    ∷ codes "Christian Gangsta Rap"
    ∷ codes "Heavy Metal"
    ∷ codes "Black Metal"
    ∷ codes "Crossover"
    ∷ codes "Contemporary Christian"
    ∷ codes "Christian Rock"
    ∷ codes "Merengue"
    ∷ codes "Salsa"
    ∷ codes "Thrash Metal"
    ∷ codes "Anime"
    ∷ codes "JPop"
    ∷ codes "Synthpop"
    ∷ codes "Abstract"
    ∷ codes "Art Rock"
    ∷ codes "Baroque"
    ∷ codes "Bhangra"
    ∷ codes "Big Beat"
    ∷ codes "Breakbeat"
    ∷ codes "Chillout"
    ∷ codes "Downtempo"
    ∷ codes "Dub"
    ∷ codes "EBM"
    ∷ codes "Eclectic"
    ∷ codes "Electro"
    ∷ codes "Electroclash"
    ∷ codes "Emo"
    ∷ codes "Experimental"
    ∷ codes "Garage"
    ∷ codes "Global"
    ∷ codes "IDM"
    ∷ codes "Illbient"
    ∷ codes "Industro-Goth"
    ∷ codes "Jam Band"
    ∷ codes "Krautrock"
    ∷ codes "Leftfield"
    ∷ codes "Lounge"
    ∷ codes "Math Rock"
    ∷ codes "New Romantic"
    ∷ codes "Nu-Breakz"
    ∷ codes "Post-Punk"
    ∷ codes "Post-Rock"
    ∷ codes "Psytrance"
    ∷ codes "Shoegaze"
    ∷ codes "Space Rock"
    ∷ codes "Trop Rock"
    ∷ codes "World Music"
    ∷ codes "Neoclassical"
    ∷ codes "Audiobook"
    ∷ codes "Audio Theatre"
    ∷ codes "Neue Deutsche Welle"
    ∷ codes "Podcast"
    ∷ codes "Indie Rock"
    ∷ codes "G-Funk"
    ∷ codes "Dubstep"
    ∷ codes "Garage Rock"
    ∷ codes "Psybient"
    ∷ []

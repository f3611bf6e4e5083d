-- ===== src/Frontend/Names/Nouns.antt =====
-- The nouns of frontend/src/lib/docker-name.ts.
use supallm.Common.{String, List, [], ◌∷◌}

abbrev pub nouns : List String
nouns =
    "agnesi" ∷ "albattani" ∷ "allen" ∷ "almeida" ∷ "antonelli" ∷ "archimedes" ∷ "ardinghelli"
    ∷ "aryabhata" ∷ "austin" ∷ "babbage" ∷ "banach" ∷ "banzai" ∷ "bardeen" ∷ "bartik" ∷ "bassi"
    ∷ "beaver" ∷ "bell" ∷ "benz" ∷ "bhabha" ∷ "bhaskara" ∷ "black" ∷ "blackburn" ∷ "blackwell"
    ∷ "bohr" ∷ "booth" ∷ "borg" ∷ "bose" ∷ "bouman" ∷ "boyd" ∷ "brahmagupta" ∷ "brattain" ∷ "brown"
    ∷ "buck" ∷ "burnell" ∷ "cannon" ∷ "carson" ∷ "cartwright" ∷ "carver" ∷ "cerf" ∷ "chandrasekhar"
    ∷ "chaplygin" ∷ "chatelet" ∷ "chatterjee" ∷ "chaum" ∷ "chebyshev" ∷ "clarke" ∷ "cohen"
    ∷ "colden" ∷ "cori" ∷ "cray" ∷ "curie" ∷ "curran" ∷ "darwin" ∷ "davinci" ∷ "dewdney" ∷ "dhawan"
    ∷ "diffie" ∷ "dijkstra" ∷ "dirac" ∷ "driscoll" ∷ "dubinsky" ∷ "easley" ∷ "edison" ∷ "einstein"
    ∷ "elbakyan" ∷ "elgamal" ∷ "elion" ∷ "ellis" ∷ "engelbart" ∷ "euclid" ∷ "euler" ∷ "faraday"
    ∷ "feistel" ∷ "fermat" ∷ "fermi" ∷ "feynman" ∷ "franklin" ∷ "gagarin" ∷ "galileo" ∷ "galois"
    ∷ "ganguly" ∷ "gates" ∷ "gauss" ∷ "germain" ∷ "goldberg" ∷ "goldstine" ∷ "goldwasser" ∷ "golick"
    ∷ "goodall" ∷ "gould" ∷ "greider" ∷ "grothendieck" ∷ "haibt" ∷ "hamilton" ∷ "haslett"
    ∷ "hawking" ∷ "heisenberg" ∷ "hellman" ∷ "hermann" ∷ "herschel" ∷ "hertz" ∷ "heyrovsky"
    ∷ "hodgkin" ∷ "hofstadter" ∷ "hoover" ∷ "hopper" ∷ "hugle" ∷ "hypatia" ∷ "ishizaka" ∷ "jackson"
    ∷ "jang" ∷ "jemison" ∷ "jennings" ∷ "jepsen" ∷ "johnson" ∷ "joliot" ∷ "jones" ∷ "kalam"
    ∷ "kapitsa" ∷ "kare" ∷ "keldysh" ∷ "keller" ∷ "kepler" ∷ "khayyam" ∷ "khorana" ∷ "kilby"
    ∷ "kirch" ∷ "knuth" ∷ "kowalevski" ∷ "lalande" ∷ "lamarr" ∷ "lamport" ∷ "leakey" ∷ "leavitt"
    ∷ "lederberg" ∷ "lehmann" ∷ "lewin" ∷ "lichterman" ∷ "liskov" ∷ "lovelace" ∷ "lumiere"
    ∷ "mahavira" ∷ "margulis" ∷ "matsumoto" ∷ "maxwell" ∷ "mayer" ∷ "mccarthy" ∷ "mcclintock"
    ∷ "mclaren" ∷ "mclean" ∷ "mcnulty" ∷ "meitner" ∷ "mendel" ∷ "mendeleev" ∷ "meninsky" ∷ "merkle"
    ∷ "mestorf" ∷ "mirzakhani" ∷ "montalcini" ∷ "moore" ∷ "morse" ∷ "moser" ∷ "murdock" ∷ "napier"
    ∷ "nash" ∷ "neumann" ∷ "newton" ∷ "nightingale" ∷ "nobel" ∷ "noether" ∷ "northcutt" ∷ "noyce"
    ∷ "panini" ∷ "pare" ∷ "pascal" ∷ "pasteur" ∷ "payne" ∷ "perlman" ∷ "pike" ∷ "poincare"
    ∷ "poitras" ∷ "proskuriakova" ∷ "ptolemy" ∷ "raman" ∷ "ramanujan" ∷ "rhodes" ∷ "ride"
    ∷ "ritchie" ∷ "robinson" ∷ "roentgen" ∷ "rosalind" ∷ "rubin" ∷ "saha" ∷ "sammet" ∷ "sanderson"
    ∷ "satoshi" ∷ "shamir" ∷ "shannon" ∷ "shaw" ∷ "shirley" ∷ "shockley" ∷ "shtern" ∷ "sinoussi"
    ∷ "snyder" ∷ "solomon" ∷ "spence" ∷ "stonebraker" ∷ "sutherland" ∷ "swanson" ∷ "swartz"
    ∷ "swirles" ∷ "taussig" ∷ "tesla" ∷ "tharp" ∷ "thompson" ∷ "torvalds" ∷ "tu" ∷ "turing"
    ∷ "varahamihira" ∷ "vaughan" ∷ "villani" ∷ "visvesvaraya" ∷ "volhard" ∷ "wescoff" ∷ "wilbur"
    ∷ "wiles" ∷ "williams" ∷ "williamson" ∷ "wilson" ∷ "wing" ∷ "wozniak" ∷ "wright" ∷ "wu"
    ∷ "yalow" ∷ "yonath" ∷ "zhukovsky" ∷ []
